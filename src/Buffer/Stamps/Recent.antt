-- ===== src/Buffer/Stamps/Recent.antt =====
-- Which entry a read finds, among those of the last inputs.
use nabu_iris.Common.{
  ℕ, zero, suc, ◌+◌, ◌<◌, ◌≤◌, ◌≡◌, ◌≢◌, ◌⊎◌, inl, true, false, List, [], ◌∷◌, set, get_or, length,
  length-set, arith, refl, ap, ◌∙◌,
}
use mathlib.Core.Path.{subst}
use nabu_iris.Buffer.{video_max_frame}
use nabu_iris.Buffer.Stamps.{
  TsMetadata, Stamps, Stamped, no_metadata, with_metadata, metadata_of, write_idx, set_ts_metadata,
  find_stamp, read_idx, get_ts_metadata,
}

-- No entry has a timestamp.
abbrev pub Absent : ℕ → List TsMetadata → Type 0
Absent ts [] = Unit {0}
Absent ts (m ∷ ms) = (m.ts_ns ≢ ts) × Absent ts ms

-- An entry is at a place, and no other has its timestamp.
abbrev pub Sole : TsMetadata → ℕ → List TsMetadata → Type 0
Sole x p [] = true ≡ false
Sole x zero (m ∷ ms) = (m ≡ x) × Absent x.ts_ns ms
Sole x (suc p) (m ∷ ms) = (m.ts_ns ≢ x.ts_ns) × Sole x p ms

set-Sole :
    (x : TsMetadata) (p : ℕ) (ms : List TsMetadata)
    → p < length ms
    → Absent x.ts_ns ms
    → Sole x p (set ms p x)
set-Sole x p [] h a = absurd (omega arith)
set-Sole x zero (m ∷ ms) h a = (refl, a.1)
set-Sole x (suc p) (m ∷ ms) h a = (a.0, set-Sole x p ms (omega arith) a.1)

set-Absent :
    (ts q : ℕ) (y : TsMetadata) (ms : List TsMetadata)
    → y.ts_ns ≢ ts
    → Absent ts ms
    → Absent ts (set ms q y)
set-Absent ts q y [] n a = a
set-Absent ts zero y (m ∷ ms) n a = (n, a.1)
set-Absent ts (suc q) y (m ∷ ms) n a = (a.0, set-Absent ts q y ms n a.1)

other-Sole :
    (x : TsMetadata) (p q : ℕ) (y : TsMetadata) (ms : List TsMetadata)
    → q ≢ p
    → y.ts_ns ≢ x.ts_ns
    → Sole x p ms
    → Sole x p (set ms q y)
other-Sole x p q y [] d n s = s
other-Sole x zero zero y (m ∷ ms) d n s = absurd (d refl)
other-Sole x zero (suc q) y (m ∷ ms) d n s = (s.0, set-Absent x.ts_ns q y ms n s.1)
other-Sole x (suc p) zero y (m ∷ ms) d n s = (n, s.1)
other-Sole x (suc p) (suc q) y (m ∷ ms) d n s =
    (s.0, other-Sole x p q y ms (λ e. d (ap suc e)) n s.1)

get_or-Sole :
    (x : TsMetadata) (p : ℕ) (ms : List TsMetadata) → Sole x p ms → get_or ms p no_metadata ≡ x
get_or-Sole x p [] s = absurd (ground arith)
get_or-Sole x zero (m ∷ ms) s = s.0
get_or-Sole x (suc p) (m ∷ ms) s = get_or-Sole x p ms s.1

find_stamp-Sole :
    (x : TsMetadata) (p : ℕ) (ms : List TsMetadata) (i last : ℕ)
    → Sole x p ms
    → find_stamp ms x.ts_ns i last ≡ i + p
unfolding find_stamp
find_stamp-Sole x p [] i last s = absurd (ground arith)
find_stamp-Sole x zero (m ∷ ms) i last s = ground (arith, ap (λ (n : TsMetadata). n.ts_ns) s.0)
find_stamp-Sole x (suc p) (m ∷ ms) i last s =
    ground (arith, find_stamp-Sole x p ms (i + 1) last s.1, s.0)

find_stamp-Absent :
    (ts : ℕ) (ms : List TsMetadata) (i last : ℕ) → Absent ts ms → find_stamp ms ts i last ≡ last
unfolding find_stamp
find_stamp-Absent ts [] i last a = refl
find_stamp-Absent ts (m ∷ ms) i last a =
    ground (arith, find_stamp-Absent ts ms (i + 1) last a.1, a.0)

-- An entry that `k` later inputs followed.
record Recent (x : TsMetadata) (k : ℕ) (t : Stamps) : Type 0 where
  place : ℕ
  inside : place < video_max_frame
  sole : Sole x place t.tss
  began : 1 ≤ t.metadata_idx
  bounded : t.metadata_idx ≤ video_max_frame
  ahead : (t.metadata_idx ≡ place + 1 + k) ⊎ (t.metadata_idx + video_max_frame ≡ place + 1 + k)

new-Recent :
    (t : Stamps) (v : Stamped)
    → length t.tss ≡ video_max_frame
    → t.metadata_idx ≤ video_max_frame
    → Absent v.timestamp t.tss
    → Recent (metadata_of v) 0 (set_ts_metadata t v)
unfolding set_ts_metadata
new-Recent t v n i a = record {
  place = write_idx t.metadata_idx;
  inside = ground arith;
  sole = set-Sole (metadata_of v) (write_idx t.metadata_idx) t.tss (ground arith) a;
  began = omega arith;
  bounded = ground arith;
  ahead = inl (omega arith);
}

next-Recent :
    (x : TsMetadata) (k : ℕ) (t : Stamps) (v : Stamped)
    → k < 31
    → v.timestamp ≢ x.ts_ns
    → Recent x k t
    → Recent x (k + 1) (set_ts_metadata t v)
unfolding set_ts_metadata
next-Recent x k t v h n r = record {
  place = r.place;
  inside = r.inside;
  sole =
      other-Sole x r.place (write_idx t.metadata_idx) (metadata_of v) t.tss
        (λ e. ground (arith, e, r.inside, r.began, r.bounded, r.ahead)) n r.sole;
  began = omega arith;
  bounded = ground (arith, r.bounded);
  ahead = ground (arith, r.inside, r.began, r.bounded, r.ahead);
}

unfoldable pub set_all : Stamps → List Stamped → Stamps
set_all t [] = t
set_all t (v ∷ vs) = set_all (set_ts_metadata t v) vs

-- No input has a timestamp.
abbrev pub NoneAt : ℕ → List Stamped → Type 0
NoneAt ts [] = Unit {0}
NoneAt ts (v ∷ vs) = (v.timestamp ≢ ts) × NoneAt ts vs

all-Recent :
    (x : TsMetadata) (k : ℕ) (t : Stamps) (vs : List Stamped)
    → k + length vs < 32
    → NoneAt x.ts_ns vs
    → Recent x k t
    → Recent x (k + length vs) (set_all t vs)
unfolding set_all
all-Recent x k t [] h n r = subst (λ (j : ℕ). Recent x j t) (omega arith) r
all-Recent x k t (v ∷ vs) h n r =
    subst (λ (j : ℕ). Recent x j (set_all (set_ts_metadata t v) vs)) (omega arith)
      (all-Recent x (k + 1) (set_ts_metadata t v) vs (omega arith) n.1
        (next-Recent x k t v (omega arith) n.0 r))

get_ts_metadata-Recent :
    (x : TsMetadata) (k : ℕ) (t : Stamps) (v : Stamped)
    → Recent x k t
    → get_ts_metadata t x.ts_ns v ≡ with_metadata v x
unfolding get_ts_metadata read_idx
get_ts_metadata-Recent x k t v r =
    let found : find_stamp t.tss x.ts_ns 0 t.metadata_idx ≡ r.place =
      omega (arith, find_stamp-Sole x r.place t.tss 0 t.metadata_idx r.sole) in
    let same =
      ap (λ (i : ℕ). get_or t.tss i no_metadata) found ∙ get_or-Sole x r.place t.tss r.sole in
    ap (λ (m : TsMetadata). with_metadata v m) same

-- The flags and the time code of an input come out again with the picture of its timestamp, where no
-- more than 31 inputs came in between and none of these and of the kept ones has the same timestamp.
pub get_ts_metadata-set_all :
    (t : Stamps) (v w : Stamped) (vs : List Stamped)
    → length t.tss ≡ video_max_frame
    → t.metadata_idx ≤ video_max_frame
    → Absent v.timestamp t.tss
    → length vs < 32
    → NoneAt v.timestamp vs
    → get_ts_metadata (set_all (set_ts_metadata t v) vs) v.timestamp w
      ≡ with_metadata w (metadata_of v)
get_ts_metadata-set_all t v w vs n i a h none =
    get_ts_metadata-Recent (metadata_of v) (0 + length vs) (set_all (set_ts_metadata t v) vs) w (
      all-Recent (metadata_of v) 0 (set_ts_metadata t v) vs (omega arith) none
        (new-Recent t v n i a))

-- When the last place was just written, a picture whose timestamp no entry has is looked up one entry
-- behind the array.
pub read_idx_past :
    (t : Stamps) (v : Stamped) (ts : ℕ)
    → length t.tss ≡ video_max_frame
    → t.metadata_idx ≡ 31
    → Absent ts t.tss
    → v.timestamp ≢ ts
    → read_idx (set_ts_metadata t v) ts ≡ length (set_ts_metadata t v).tss
unfolding read_idx set_ts_metadata
read_idx_past t v ts n i a new =
    let w = write_idx t.metadata_idx in
    find_stamp-Absent ts (set t.tss w (metadata_of v)) 0 (w + 1)
      (set-Absent ts w (metadata_of v) t.tss new a)
    ∙ ground (arith, i, n, length-set t.tss w (metadata_of v))
