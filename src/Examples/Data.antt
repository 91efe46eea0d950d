-- ===== src/Examples/Data.antt =====
-- Inputs that the examples share.
use nabu_iris.Common.{ℕ, ◌+◌, true, false, none, some, [], ◌∷◌, ◌==◌, if◌then◌else◌, arith, refl}
use nabu_iris.Instance.{InstState, Handle}
use nabu_iris.Queue.{QueueHeader, IfaceQueue, Buffer}
use nabu_iris.Queue.Bytes.{bytes}
use nabu_iris.Queue.Valid.{Holds, IsPacket}
use nabu_iris.Core.{Platform, Core, CoreState}
use nabu_iris.Core.Table.{queue_alloc_size, sfr_size}
use nabu_iris.Core.Vpu.{PowerAnswers}
use nabu_iris.Core.Boot.{BootAnswers}
use nabu_iris.Core.Boot.Resources.{IsOff, IsUp}
use nabu_iris.Session.{no_inst}

abbrev pub header : QueueHeader
header = record {
  status = 1;
  start_addr = 0;
  queue_type = 1;
  header_type = 0;
  q_size = 1024;
  pkt_size = 0;
  pkt_drop_cnt = 0;
  rx_wm = 1;
  tx_wm = 1;
  rx_req = 1;
  tx_req = 0;
  rx_irq_status = 0;
  tx_irq_status = 0;
  read_idx = 0;
  write_idx = 0;
}

abbrev pub empty_ring : IfaceQueue
empty_ring = record { qhdr = header; device_addr = 0; ring = λ i. 0 }

pub empty_ring-Holds : Holds 4096 empty_ring []
empty_ring-Holds = record {
  valid = record {
    ring = record { whole = refl; small = omega arith; roomy = omega arith };
    read_in = omega arith;
    write_in = omega arith;
  };
  packets = tt;
  filled = refl;
}

-- A packet of eight bytes: its length, and a word 0.
abbrev pub small_packet : Buffer
small_packet i = if i == 0 then 8 else 0

pub small_packet-IsPacket : IsPacket (bytes small_packet 0 8)
small_packet-IsPacket = record {
  whole = refl;
  headed = omega arith;
  fits = omega arith;
  length_first = refl;
}

abbrev pub out_buffer : Buffer
out_buffer i = 0

abbrev pub sm8150 : Platform
sm8150 = record {
  legacy_vpu5 = true;
  defer_vcodec_power = true;
  max_session_count = 16;
  max_core_mbpf = 138240;
  max_core_mbps = 7776000;
}

abbrev pub off_core : Core
off_core = record {
  platform = sm8150;
  state = CoreState.deinit;
  iface_q_table = none;
  sfr = none;
  command_queue = none;
  message_queue = none;
  debug_queue = none;
  instances = no_inst ∷ no_inst ∷ [];
  recovery_pending = false;
  vpu_suspended = false;
  vpu_powered = false;
  pc_work_queued = false;
  clk_freq = 0;
  rails = record { controller = 0; codec = 0; icc_vote = false; underflow = false };
  fw_running = false;
  dma_bytes = 0;
  doorbells = 0;
}

pub off_core-IsOff : IsOff off_core
off_core-IsOff = record {
  deferred = refl;
  power = record { controller = refl; codec = refl; balanced = refl };
  firmware = refl;
  memory = refl;
}

abbrev pub up_core : Core
up_core = record off_core {
  state = CoreState.init;
  iface_q_table = some 4096;
  sfr = some 8192;
  command_queue = some empty_ring;
  message_queue = some empty_ring;
  debug_queue = some empty_ring;
  vpu_powered = true;
  rails = record { controller = 1; codec = 1; icc_vote = true; underflow = false };
  fw_running = true;
  dma_bytes = queue_alloc_size sm8150 + sfr_size;
}

pub up_core-IsUp : IsUp up_core
up_core-IsUp = record {
  queues = record { deferred = refl; bytes = refl; table = λ e. cc };
  power = record { controller = refl; codec = refl; balanced = refl };
  powered = refl;
  firmware = refl;
}

abbrev pub power_ok : PowerAnswers
power_ok = record {
  icc = 0;
  controller_opp = 0;
  controller_get = 0;
  controller = 0;
  codec_opp = 0;
  codec_get = 0;
  codec = 0;
  opp = 0;
}

abbrev pub boot_ok : BootAnswers
boot_ok = record {
  table_addr = some 4096;
  sfr_addr = some 8192;
  power = power_ok;
  fw = record {
    name_length = 20;
    node_found = true;
    reserved = some 5242880;
    request = 0;
    image_size = some 4000000;
    mapped = true;
    mdt_load = 0;
    authenticate = 0;
    protect = 0;
  };
  hw_state = 0;
  status = λ i. if i == 3 then 1 else 0;
  sys_init = 0;
  image_version = 0;
  interframe = 0;
  sys_error = false;
  answered = true;
  min_freq = 240000000;
  set_rate = 0;
}

abbrev pub handle : InstState → ℕ → Handle
handle s sub = record {
  inst = record no_inst { state = s; sub_state = sub };
  recovery_pending = false;
}

abbrev pub broken_core : Core
broken_core = record up_core { state = CoreState.error }

pub broken_core-IsUp : IsUp broken_core
broken_core-IsUp = record {
  queues = record { deferred = refl; bytes = refl; table = λ e. cc };
  power = record { controller = refl; codec = refl; balanced = refl };
  powered = refl;
  firmware = refl;
}
