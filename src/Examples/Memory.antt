-- ===== src/Examples/Memory.antt =====
-- The buffers of a 4K decoder, the life of its internal buffers, and the clock of two sessions.
use nabu_iris.Common.{
  ◌+◌, ◌*◌, ◌/◌, ◌≤◌, ◌<◌, ◌^◌, true, false, some, List, [], ◌∷◌, ◌≡◌, arith, refl, inl, ◌-◌, total,
}
use nabu_iris.Instance.{Inst, Domain}
use nabu_iris.Session.{instance_at, no_inst}
use nabu_iris.Buffer.{BufferType, Codec, PixelFormat, Shape}
use nabu_iris.Buffer.Align.{IsDma}
use nabu_iris.Buffer.Size.{vpu_buf_size}
use nabu_iris.Buffer.Decoder.{hfi_buffer_comv_h264d}
use nabu_iris.Buffer.Aligned.Kinds.{vpu_buf_size-IsDma}
use nabu_iris.Buffer.Fits.{comv_h264d_holds}
use nabu_iris.Buffer.Pool
use nabu_iris.Buffer.Pool.Account.{Accounted}
use nabu_iris.Buffer.Pool.Life.{PoolEvent, sizes, creates, queues, persists, releases, destroys}
use nabu_iris.Buffer.Pool.Emptied.{close_pools, session_kinds, apply_events, close_frees_all}
use nabu_iris.Power.{Costs, Voter, ScaleAnswers, freq_share, unvote_power}
use nabu_iris.Power.Shares.{rate, unvote_power_rate}
use nabu_iris.Examples.Data.{up_core}

abbrev shape : Shape
shape = record {
  domain = Domain.decoder;
  codec = Codec.h264;
  src_width = 4096;
  src_height = 2176;
  dst_width = 4096;
  dst_height = 2176;
  dst_format = PixelFormat.nv12;
  mbpf = 34816;
  scaled = false;
  fw_min_count = 6;
  output_min_count = 4;
  stage = 2;
  hfi_rc_type = 0;
  constant_quality = false;
  frame_rc = true;
  num_vpp_pipe = 1;
  legacy_vpu5 = true;
  max_mbpf = 36864;
}

vpu_buf_size-IsDma_example : IsDma (vpu_buf_size shape BufferType.line)
vpu_buf_size-IsDma_example = vpu_buf_size-IsDma shape BufferType.line (inl refl)

comv_h264d_holds_example :
    (128 * ((4096 + 15) / 16 * ((2176 + 15) / 16)) * 32 ≤ hfi_buffer_comv_h264d 4096 2176 32)
    × (hfi_buffer_comv_h264d 4096 2176 32 < 2 ^ 31)
comv_h264d_holds_example = comv_h264d_holds 4096 2176 32 (omega arith) (omega arith) (omega arith)

abbrev none_held : Pool.Pools
none_held = record {
  buffers =
      Pool.no_buffers ∷ Pool.no_buffers ∷ Pool.no_buffers ∷ Pool.no_buffers ∷ Pool.no_buffers
      ∷ Pool.no_buffers ∷ Pool.no_buffers ∷ Pool.no_buffers ∷ Pool.no_buffers ∷ Pool.no_buffers
      ∷ Pool.no_buffers ∷ Pool.no_buffers ∷ Pool.no_buffers ∷ [];
  dma = 0;
}

abbrev input_kinds : List BufferType
input_kinds = BufferType.bin ∷ BufferType.comv ∷ BufferType.non_comv ∷ BufferType.line ∷ []

abbrev output_kinds : List BufferType
output_kinds = BufferType.dpb ∷ []

none_held-Accounted : Accounted (session_kinds Domain.decoder input_kinds output_kinds) none_held
none_held-Accounted = record { kinds = refl; balance = refl; only = ground arith }

-- An allocator that has memory for the first picture alone.
abbrev scarce : Pool.Allocator
scarce BufferType.dpb i = false
scarce _ i = true

abbrev accepted : Pool.Commander
accepted t b = 0

abbrev pool_events : List PoolEvent
pool_events =
    sizes input_kinds
    ∷ creates scarce input_kinds
    ∷ queues accepted true input_kinds
    ∷ persists scarce accepted BufferType.persist
    ∷ sizes output_kinds
    ∷ creates scarce output_kinds
    ∷ releases accepted input_kinds
    ∷ destroys input_kinds
    ∷ []

close_frees_all_example :
    (close_pools Domain.decoder
      (apply_events shape none_held pool_events)
      input_kinds
      output_kinds).dma
    ≡ 0
close_frees_all_example =
    close_frees_all Domain.decoder input_kinds output_kinds shape none_held pool_events
      (ground arith) none_held-Accounted

abbrev costs : Costs
costs = record {
  bw_tbl = [];
  video_mem = some (1000, 15000000);
  mb_cycles_vpp = 200;
  mb_cycles_vsp = 25;
}

abbrev stream : Inst
stream = record no_inst {
  hfi_session_opened = true;
  max_input_data_size = 100000;
  min_freq = 240000000;
}

abbrev voter : Voter
voter = record {
  core = record up_core { instances = stream ∷ stream ∷ [] };
  icc_bw = 0;
  avg_bw = 0;
}

abbrev accepts : ScaleAnswers
accepts = record { resume = 0; lowest = 200000000; set_rate = 0; set_bw = 0 }

unvote_power_rate_example :
    (unvote_power costs voter 0 accepts).1.core.clk_freq
    ≡ rate accepts.lowest
        (total freq_share voter.core.instances - freq_share (instance_at voter.core 0))
unvote_power_rate_example =
    unvote_power_rate costs voter 0 accepts (omega arith) (omega arith) refl (omega arith)
