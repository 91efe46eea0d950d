-- ===== src/Examples/Packets.antt =====
-- The first message of a core, and responses.
use nabu_iris.Common.{◌≤◌, ◌==◌, ◌∷◌, [], ◌≡◌, arith, refl, if◌then◌else◌}
use nabu_iris.Queue.{Buffer, load_u32}
use nabu_iris.Queue.Bytes.{bytes}
use nabu_iris.Queue.Valid.{IsPacket}
use nabu_iris.Packet.{
  validate_packets, validate_packet, Words, Ids, UbwcConfig, sys_init_packets, message,
  validate_hdr_packet, packet_offsets, size_loads,
}
use nabu_iris.Packet.Message.{IsMessage}
use nabu_iris.Packet.Build.{numbered, to_bytes, message-IsMessage, message-IsPacket}
use nabu_iris.Packet.Response.{AreInside, validate_hdr_packet-AreInside, size_loads_past}

abbrev blank : Words
blank i = 0

abbrev ids : Ids
ids = record { header_id = 7; packet_id = 40 }

abbrev ubwc : UbwcConfig
ubwc = record {
  max_channels = 8;
  mal_length = 32;
  highest_bank_bit = 14;
  bank_swzl_level = 0;
  bank_swz2_level = 1;
  bank_swz3_level = 1;
  bank_spreading = 1;
}

message-IsMessage_example :
    let (mem, ids') = message blank ids 0 (sys_init_packets ubwc) in
    IsMessage mem (numbered (sys_init_packets ubwc) 40) × (mem 1 ≡ 0) × (mem 2 ≡ 7)
message-IsMessage_example = message-IsMessage blank ids 0 (sys_init_packets ubwc) (omega arith)

message-IsPacket_example :
    let (mem, ids') = message blank ids 0 (sys_init_packets ubwc) in
    IsPacket (bytes (to_bytes mem) 0 (mem 0))
message-IsPacket_example = message-IsPacket blank ids 0 (sys_init_packets ubwc) (omega arith)

-- A response of one packet of 32 bytes.
abbrev response : Buffer
response i = if i == 0 then 64 else if i == 28 then 1 else if i == 32 then 32 else 0

validate_hdr_packet-AreInside_example :
    AreInside response (packet_offsets response (load_u32 response 28) 32)
    × (load_u32 response 28 ≤ 127)
unfolding validate_hdr_packet validate_packets validate_packet
validate_hdr_packet-AreInside_example = validate_hdr_packet-AreInside response refl

-- One packet that takes the rest of the buffer, its length 4064.
abbrev full_response : Buffer
full_response i = if i == 32 then 0xe0 else if i == 33 then 0x0f else 0

size_loads_past_example : size_loads full_response 2 32 ≡ 32 ∷ 4096 ∷ []
unfolding size_loads packet_offsets validate_packets validate_packet
size_loads_past_example = size_loads_past full_response 1 32 refl refl
