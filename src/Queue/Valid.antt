-- ===== src/Queue/Valid.antt =====
-- The ring as the packets that it holds, in order.
use nabu_iris.Common.{
  ℕ, ◌+◌, ◌-◌, ◌*◌, ◌%◌, ◌^◌, ◌≤◌, ◌<◌, List, [], ◌∷◌, ◌++◌, ◌≡◌, length, ltb, arith, if◌then◌else◌,
}
use nabu_iris.Queue.{IfaceQueue, core_pkt_size}
use nabu_iris.Queue.Bytes.{window}

-- A size that a ring can have: whole words, and room for every offset in a u32.
pub record IsRing (size : ℕ) : Type 0 where
  pub whole : size % 4 ≡ 0
  pub small : size ≤ 2 ^ 30
  pub roomy : core_pkt_size ≤ size

-- Both indices are inside the ring.
pub record IsValid (size : ℕ) (q : IfaceQueue) : Type 0 where
  pub ring : IsRing size
  pub read_in : q.qhdr.read_idx * 4 < size
  pub write_in : q.qhdr.write_idx * 4 < size

-- The bytes that are in the ring.
abbrev pub used : ℕ → IfaceQueue → ℕ
used size q =
    if ltb (q.qhdr.write_idx * 4) (q.qhdr.read_idx * 4)
    then q.qhdr.write_idx * 4 + size - q.qhdr.read_idx * 4
    else q.qhdr.write_idx * 4 - q.qhdr.read_idx * 4

pub used-lt : (size : ℕ) (q : IfaceQueue) → IsValid size q → used size q < size
used-lt size q v = ground arith

abbrev pub contents : ℕ → IfaceQueue → List ℕ
contents size q = window size q.ring (q.qhdr.read_idx * 4) (used size q)

-- The length that a packet says it has, in its first word.
abbrev pub stated_length : List ℕ → ℕ
stated_length (a ∷ b ∷ c ∷ d ∷ _) = a + 0x100 * b + 0x10000 * c + 0x1000000 * d
stated_length _ = 0

-- A packet that the protocol allows: whole words that fit the response buffer, its length first.
pub record IsPacket (p : List ℕ) : Type 0 where
  pub whole : length p % 4 ≡ 0
  pub headed : 4 ≤ length p
  pub fits : length p ≤ core_pkt_size
  pub length_first : stated_length p ≡ length p

abbrev pub ArePackets : List (List ℕ) → Type 0
ArePackets [] = Unit
ArePackets (p ∷ ps) = IsPacket p × ArePackets ps

abbrev pub concat : List (List ℕ) → List ℕ
concat [] = []
concat (p ∷ ps) = p ++ concat ps

-- The ring holds just these packets, oldest first.
pub record Holds (size : ℕ) (q : IfaceQueue) (ps : List (List ℕ)) : Type 0 where
  pub valid : IsValid size q
  pub packets : ArePackets ps
  pub filled : contents size q ≡ concat ps
