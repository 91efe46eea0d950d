-- ===== src/Packet/Build.antt =====
-- The messages that the driver builds, and their way into the command ring.
use nabu_iris.Common.{
  ℕ, ◌+◌, ◌*◌, ◌/◌, ◌%◌, ◌^◌, ◌≤◌, ◌<◌, List, [], ◌∷◌, ◌++◌, ◌≡◌, refl, sym, ◌∙◌, ap, arith, length,
  length-append, total, u32,
}
use mathlib.Core.Path.{subst}
use mathlib.Core.List.{append_assoc, append-nil}
use nabu_iris.Queue.Bytes.{bytes, length-bytes}
use nabu_iris.Queue.Valid.{concat, IsPacket}
use nabu_iris.Queue.Fifo.{concat-append, stated_length-bytes}
use nabu_iris.Queue.{Buffer, core_pkt_size}
use nabu_iris.Packet.{
  Words, PacketSpec, packet_words, create_header, create_packet, create_packets, Ids, message,
}
use nabu_iris.Packet.Message.{IsMessage, create_packet-IsMessage}

create_header_ids :
    (mem : Words) (session_id header_id : ℕ)
    → let mem' = create_header mem session_id header_id in
      (mem' 1 ≡ session_id) × (mem' 2 ≡ header_id)
unfolding create_header
create_header_ids mem s h = (refl, refl)

-- The packets with their ids, in order.
abbrev pub numbered : List PacketSpec → ℕ → List (List ℕ)
numbered [] id = []
numbered (p ∷ ps) id = packet_words p id ∷ numbered ps (u32 (id + 1))

-- The words that the packets take.
abbrev pub words : List PacketSpec → ℕ
words = total (λ (p : PacketSpec). 8 + length p.payload)

create_header-IsMessage :
    (mem : Words) (session_id header_id : ℕ) → IsMessage (create_header mem session_id header_id) []
unfolding create_header
create_header-IsMessage mem s h = record {
  counted = refl;
  sized = refl;
  filled = refl;
  headed = tt;
}

-- The size of a message that grew by a packet, with the packets to come.
grown :
    (qs : List (List ℕ)) (p : PacketSpec) (id : ℕ) (ps : List PacketSpec)
    → 4 * (8 + length (concat qs) + words (p ∷ ps)) < 2 ^ 32
    → 4 * (8 + length (concat (qs ++ (packet_words p id ∷ []))) + words ps) < 2 ^ 32
grown qs p id ps room = omega (
  arith,
  room,
  ap (λ (l : List ℕ). length l) (concat-append qs (packet_words p id)),
  length-append (concat qs) (packet_words p id),
)

create_packets-IsMessage :
    (ps : List PacketSpec) (mem : Words) (qs : List (List ℕ)) (id : ℕ)
    → IsMessage mem qs
    → 4 * (8 + length (concat qs) + words ps) < 2 ^ 32
    → IsMessage (create_packets mem ps id) (qs ++ numbered ps id)
unfolding create_packets
create_packets-IsMessage [] mem qs id m room = subst (IsMessage mem) (sym (append-nil qs)) m
create_packets-IsMessage (p ∷ ps) mem qs id m room =
    subst (IsMessage (create_packets (create_packet mem p id) ps (u32 (id + 1))))
      (append_assoc qs (packet_words p id ∷ []) (numbered ps (u32 (id + 1))))
      (create_packets-IsMessage ps (create_packet mem p id) (qs ++ (packet_words p id ∷ []))
        (u32 (id + 1)) (create_packet-IsMessage mem qs p id m (omega (arith, room)))
        (grown qs p id ps room))

create_packet_header :
    (mem : Words) (p : PacketSpec) (id k : ℕ)
    → 8 ≤ mem 0 / 4
    → 0 < k
    → k < 7
    → create_packet mem p id k ≡ mem k
unfolding create_packet
create_packet_header mem p id k start low high = ground arith

-- What a packet leaves of the header: the words between its size and its count.
create_packets_header :
    (ps : List PacketSpec) (mem : Words) (qs : List (List ℕ)) (id k : ℕ)
    → IsMessage mem qs
    → 4 * (8 + length (concat qs) + words ps) < 2 ^ 32
    → 0 < k
    → k < 7
    → create_packets mem ps id k ≡ mem k
unfolding create_packets
create_packets_header [] mem qs id k m room low high = refl
create_packets_header (p ∷ ps) mem qs id k m room low high =
    create_packets_header ps (create_packet mem p id) (qs ++ (packet_words p id ∷ []))
      (u32 (id + 1)) k (create_packet-IsMessage mem qs p id m (omega (arith, room)))
      (grown qs p id ps room) low high
    ∙ create_packet_header mem p id k (omega (arith, m.sized)) low high

-- A message that is built holds its packets in order, numbered from the next id, behind a header
-- with its session and its own id, as long as its size fits its field.
pub message-IsMessage :
    (mem : Words) (ids : Ids) (session_id : ℕ) (ps : List PacketSpec)
    → 4 * (8 + words ps) < 2 ^ 32
    → let (mem', ids') = message mem ids session_id ps in
      IsMessage mem' (numbered ps ids.packet_id) × (mem' 1 ≡ session_id) × (mem' 2 ≡ ids.header_id)
unfolding message
message-IsMessage mem ids session_id ps room = (
  create_packets-IsMessage ps start [] ids.packet_id empty (omega (arith, room)),
  create_packets_header ps start [] ids.packet_id 1 empty (omega (arith, room)) (omega arith)
        (omega arith)
      ∙ header.0,
  create_packets_header ps start [] ids.packet_id 2 empty (omega (arith, room)) (omega arith)
        (omega arith)
      ∙ header.1,
)
  where
    start : Words
    start = create_header mem session_id ids.header_id

    empty : IsMessage start []
    empty = create_header-IsMessage mem session_id ids.header_id

    header : (start 1 ≡ session_id) × (start 2 ≡ ids.header_id)
    header = create_header_ids mem session_id ids.header_id

-- The bytes of a memory of words, little-endian.
abbrev pub to_bytes : Words → Buffer
to_bytes mem i = mem (i / 4) / 256 ^ (i % 4) % 256

bytes_of_word :
    (n : ℕ)
    → n ≤ core_pkt_size
    → n / 1 % 256
        + 0x100 * (n / 256 % 256)
        + 0x10000 * (n / 65536 % 256)
        + 0x1000000 * (n / 16777216 % 256)
      ≡ n
bytes_of_word n h = omega (arith, h)

length-numbered : (ps : List PacketSpec) (id : ℕ) → length (concat (numbered ps id)) ≡ words ps
length-numbered [] id = refl
length-numbered (p ∷ ps) id = omega (
  arith,
  length-append (packet_words p id) (concat (numbered ps (u32 (id + 1)))),
  length-numbered ps (u32 (id + 1)),
)

-- A message that fits the ring's packets is one that the protocol of the ring allows.
pub message-IsPacket :
    (mem : Words) (ids : Ids) (session_id : ℕ) (ps : List PacketSpec)
    → 4 * (8 + words ps) ≤ core_pkt_size
    → let (mem', ids') = message mem ids session_id ps in
      IsPacket (bytes (to_bytes mem') 0 (mem' 0))
message-IsPacket mem ids session_id ps room = record {
  whole = omega (arith, n, size);
  headed = omega (arith, n, size);
  fits = omega (arith, n, size, room);
  length_first = stated_length-bytes (to_bytes mem') (mem' 0) (omega (arith, size)) ∙ word ∙ sym n;
}
  where
    mem' : Words
    mem' = (message mem ids session_id ps).0

    m : IsMessage mem' (numbered ps ids.packet_id)
    m = (message-IsMessage mem ids session_id ps (omega (arith, room))).0

    n : length (bytes (to_bytes mem') 0 (mem' 0)) ≡ mem' 0
    n = length-bytes (to_bytes mem') 0 (mem' 0)

    size : mem' 0 ≡ 4 * (8 + words ps)
    size = omega (arith, m.sized, length-numbered ps ids.packet_id)

    word :
        to_bytes mem' 0
          + 0x100 * to_bytes mem' 1
          + 0x10000 * to_bytes mem' 2
          + 0x1000000 * to_bytes mem' 3
        ≡ mem' 0
    word = bytes_of_word (mem' 0) (omega (arith, size, room))
