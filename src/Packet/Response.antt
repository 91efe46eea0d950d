-- ===== src/Packet/Response.antt =====
-- The checks of a response before its packets are handled.
use nabu_iris.Common.{
  eq→==, ℕ, zero, suc, ◌+◌, ◌*◌, ◌≤◌, ◌==◌, List, [], ◌∷◌, ◌++◌, ◌≡◌, ap, arith, inl, inr,
  Bool-cases,
}
use nabu_iris.Queue.{Buffer, load_u32, core_pkt_size}
use nabu_iris.Packet.{
  hdr_size, packet_size, validate_packet, validate_packets, validate_hdr_packet, packet_offsets,
  size_loads,
}

-- Each packet at these offsets has room for its header, and ends inside the response buffer.
abbrev pub AreInside : Buffer → List ℕ → Type 0
AreInside response [] = Unit
AreInside response (at ∷ rest) =
    (packet_size ≤ load_u32 response at)
    × (at + load_u32 response at ≤ core_pkt_size)
    × AreInside response rest

validate_packet-inside :
    (response : Buffer) (at : ℕ)
    → validate_packet response at ≡ 0
    → (packet_size ≤ load_u32 response at) × (at + load_u32 response at ≤ core_pkt_size)
unfolding validate_packet
validate_packet-inside response at ok = ground arith

-- A run of packets that passes is the first packet that passes, and the others.
validate_packets-split :
    (response : Buffer) (n at : ℕ)
    → validate_packets response (suc n) at ≡ 0
    → (validate_packet response at ≡ 0)
      × (validate_packets response n (at + load_u32 response at) ≡ 0)
unfolding validate_packets
validate_packets-split response n at ok = ground arith

-- Once a run of packets passed, each of them lies inside the buffer, by its size.
validate_packets-AreInside :
    (response : Buffer) (n at : ℕ)
    → validate_packets response n at ≡ 0
    → AreInside response (packet_offsets response n at)
unfolding packet_offsets
validate_packets-AreInside response zero at ok = tt
validate_packets-AreInside response (suc n) at ok =
    let (first, rest) = validate_packets-split response n at ok in
    let (room, fits) = validate_packet-inside response at first in
    (room, fits, validate_packets-AreInside response n _ rest)

validate_packets_count :
    (response : Buffer) (n at : ℕ)
    → at ≤ core_pkt_size
    → validate_packets response n at ≡ 0
    → at + packet_size * n ≤ core_pkt_size
validate_packets_count response zero at le ok = omega arith
validate_packets_count response (suc n) at le ok =
    let (first, rest) = validate_packets-split response n at ok in
    let (room, fits) = validate_packet-inside response at first in
    omega (arith, room, validate_packets_count response n _ fits rest)

-- In a response that passes the check, each packet that the count of its header names has room for its
-- own header and ends, by its size, in the buffer, and there are 127 at most. What a handler reads
-- behind a packet's header is not part of this.
pub validate_hdr_packet-AreInside :
    (response : Buffer)
    → validate_hdr_packet response ≡ 0
    → AreInside response (packet_offsets response (load_u32 response 28) hdr_size)
      × (load_u32 response 28 ≤ 127)
unfolding validate_hdr_packet
validate_hdr_packet-AreInside response ok = (
  validate_packets-AreInside response (load_u32 response 28) hdr_size passed,
  omega
      (arith, validate_packets_count response (load_u32 response 28) hdr_size (omega arith) passed),
)
  where
    passed : validate_packets response (load_u32 response 28) hdr_size ≡ 0
    passed = ground arith

-- Where the first `n` packets end.
abbrev pub end_of : Buffer → ℕ → ℕ → ℕ
end_of response zero at = at
end_of response (suc n) at = end_of response n (at + load_u32 response at)

-- Where `n` valid packets fill the response buffer to its end, and the header counts one more, the
-- check loads that packet's size at the end of the buffer, past its last byte.
pub size_loads_past :
    (response : Buffer) (n at : ℕ)
    → validate_packets response n at ≡ 0
    → end_of response n at ≡ core_pkt_size
    → size_loads response (suc n) at ≡ packet_offsets response n at ++ (core_pkt_size ∷ [])
unfolding size_loads packet_offsets
size_loads_past response zero at ok e = elim (Bool-cases (validate_packet response at == 0)) [
  | inl yes' ↦ rw yes' (ap (λ (k : ℕ). k ∷ []) e)
  | inr no' ↦ rw no' (ap (λ (k : ℕ). k ∷ []) e)
]
size_loads_past response (suc n) at ok e =
    let (first, rest) = validate_packets-split response n at ok in
    rw (eq→== _ _ first)
      (ap (◌∷◌ at) (size_loads_past response n (at + load_u32 response at) rest e))
