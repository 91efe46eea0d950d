-- ===== src/Packet.antt =====
-- iris_hfi_gen2_packet.c and the checks of iris_hfi_gen2_response.c: messages to and from the
-- firmware. A message that is built is a memory of u32 words, since each of its fields and payloads
-- is made of them; a response is a buffer of bytes, since its sizes are the firmware's.
pub mod Message
pub mod Build
pub mod Response
use nabu_iris.Common.{
  ℕ, zero, suc, ◌+◌, ◌-◌, ◌*◌, ◌/◌, ◌&&◌, ◌==◌, ltb, leb, if◌then◌else◌, List, [], ◌∷◌, length,
  get_or, u32, einval, bit_or,
}
use nabu_iris.Queue.{Buffer, load_u32, core_pkt_size}

-- A memory of words, by their index.
abbrev pub Words : Type 0
Words = ℕ → ℕ

abbrev pub store : Words → ℕ → List ℕ → Words
store mem i ws k = if leb i k && ltb k (i + length ws) then get_or ws (k - i) 0 else mem k

-- sizeof(struct iris_hfi_header) and sizeof(struct iris_hfi_packet)
abbrev pub hdr_size : ℕ
hdr_size = 8 * 4

abbrev pub packet_size : ℕ
packet_size = 8 * 4

-- `core->header_id` and `core->packet_id`
pub record Ids : Type 0 where
  pub header_id : ℕ
  pub packet_id : ℕ

-- The words of `struct iris_hfi_header`: size, session_id, header_id, reserved, num_packets.
unfoldable pub create_header : Words → ℕ → ℕ → Words
create_header mem session_id header_id =
    store mem 0 (hdr_size ∷ session_id ∷ header_id ∷ 0 ∷ 0 ∷ 0 ∷ 0 ∷ 0 ∷ [])

-- What the packets of one message differ in.
pub record PacketSpec : Type 0 where
  pub type_id : ℕ
  pub flags : ℕ
  pub payload_info : ℕ
  pub port : ℕ
  pub payload : List ℕ

-- The words of `struct iris_hfi_packet`.
abbrev pub packet_words : PacketSpec → ℕ → List ℕ
packet_words p packet_id =
    u32 (packet_size + 4 * length p.payload)
    ∷ p.type_id
    ∷ p.flags
    ∷ p.payload_info
    ∷ p.port
    ∷ packet_id
    ∷ 0
    ∷ 0
    ∷ p.payload

-- The packet goes behind what the header's size counts; then the header counts it.
unfoldable pub create_packet : Words → PacketSpec → ℕ → Words
create_packet mem p packet_id =
    let ws = packet_words p packet_id in
    let stored = store mem (mem 0 / 4) ws in
    let counted = store stored 7 (u32 (stored 7 + 1) ∷ []) in
    store counted 0 (u32 (counted 0 + get_or ws 0 0) ∷ [])

-- The packets of a message, each with the next id.
unfoldable pub create_packets : Words → List PacketSpec → ℕ → Words
create_packets mem [] packet_id = mem
create_packets mem (p ∷ ps) packet_id =
    create_packets (create_packet mem p packet_id) ps (u32 (packet_id + 1))

-- A message of the packets `ps`, and the ids that the core has then.
unfoldable pub message : Words → Ids → ℕ → List PacketSpec → Words × Ids
message mem ids session_id ps = (
  create_packets (create_header mem session_id ids.header_id) ps ids.packet_id,
  record { header_id = u32 (ids.header_id + 1); packet_id = u32 (ids.packet_id + length ps) },
)

-- HFI_HOST_FLAGS_*, HFI_PAYLOAD_*, HFI_PORT_NONE
abbrev pub intr_required : ℕ
intr_required = 1

abbrev pub response_required : ℕ
response_required = 2

abbrev pub non_discardable : ℕ
non_discardable = 4

abbrev pub get_property : ℕ
get_property = 8

-- A property of the system with one u32 value.
abbrev pub u32_property : ℕ → ℕ → PacketSpec
u32_property type_id value = record {
  type_id = type_id;
  flags = 0;
  payload_info = 1;
  port = 0;
  payload = value ∷ [];
}

-- `struct ubwc_config_data`
pub record UbwcConfig : Type 0 where
  pub max_channels : ℕ
  pub mal_length : ℕ
  pub highest_bank_bit : ℕ
  pub bank_swzl_level : ℕ
  pub bank_swz2_level : ℕ
  pub bank_swz3_level : ℕ
  pub bank_spreading : ℕ

abbrev pub sys_init_packets : UbwcConfig → List PacketSpec
sys_init_packets u =
    record {
      type_id = 0x01000001;
      flags = response_required + intr_required + non_discardable;
      payload_info = 1;
      port = 0;
      payload = 1 ∷ [];
    }
    ∷ u32_property 0x03000003 u.max_channels
    ∷ u32_property 0x03000004 u.mal_length
    ∷ u32_property 0x03000005 u.highest_bank_bit
    ∷ u32_property 0x03000006 u.bank_swzl_level
    ∷ u32_property 0x03000007 u.bank_swz2_level
    ∷ u32_property 0x03000008 u.bank_swz3_level
    ∷ u32_property 0x03000009 u.bank_spreading
    ∷ []

unfoldable pub packet_sys_init : Words → Ids → UbwcConfig → Words × Ids
packet_sys_init mem ids u = message mem ids 0 (sys_init_packets u)

unfoldable pub packet_image_version : Words → Ids → Words × Ids
packet_image_version mem ids = message mem ids 0 (
    record {
      type_id = 0x03000001;
      flags = response_required + intr_required + get_property;
      payload_info = 0;
      port = 0;
      payload = [];
    }
    ∷ [])

-- `iris_hfi_gen2_packet_session_command` and `iris_hfi_gen2_packet_session_property`: one packet of
-- the caller's, for the session.
unfoldable pub packet_session : Words → Ids → ℕ → PacketSpec → Words × Ids
packet_session mem ids session_id p = message mem ids session_id (p ∷ [])

unfoldable pub packet_sys_interframe_powercollapse : Words → Ids → Words × Ids
packet_sys_interframe_powercollapse mem ids = message mem ids 0 (u32_property 0x03000002 1 ∷ [])

unfoldable pub packet_sys_pc_prep : Words → Ids → Words × Ids
packet_sys_pc_prep mem ids =
    message mem ids 0
      (record { type_id = 0x01000002; flags = 0; payload_info = 0; port = 0; payload = [] } ∷ [])

-- `iris_hfi_gen2_validate_packet` at an offset of `core->response_packet`.
unfoldable pub validate_packet : Buffer → ℕ → ℕ
validate_packet response at =
    let size = load_u32 response at in
    if size == 0
    then einval
    else if ltb size packet_size
    then einval
    else if ltb core_pkt_size (at + size)
    then einval
    else 0

-- The loop of `iris_hfi_gen2_validate_hdr_packet` over `n` packets.
unfoldable pub validate_packets : Buffer → ℕ → ℕ → ℕ
validate_packets response zero at = 0
validate_packets response (suc n) at =
    let rest = validate_packets response n (at + load_u32 response at) in
    if validate_packet response at == 0 then rest else validate_packet response at

unfoldable pub validate_hdr_packet : Buffer → ℕ
validate_hdr_packet response =
    if ltb (load_u32 response 0) (hdr_size + packet_size)
    then einval
    else validate_packets response (load_u32 response 28) hdr_size

-- The offsets of the packets that a handler of the response looks at.
unfoldable pub packet_offsets : Buffer → ℕ → ℕ → List ℕ
packet_offsets response zero at = []
packet_offsets response (suc n) at = at ∷ packet_offsets response n (at + load_u32 response at)

-- The offsets at which the check itself loads a size, up to the packet that it refuses.
unfoldable pub size_loads : Buffer → ℕ → ℕ → List ℕ
size_loads response zero at = []
size_loads response (suc n) at =
    let rest = size_loads response n (at + load_u32 response at) in
    at ∷ (if validate_packet response at == 0 then rest else [])
