-- ===== src/Buffer/Stamps.antt =====
-- iris_set_ts_metadata of iris_common.c and iris_get_ts_metadata of iris_buffer.c: flags and time code of
-- an input buffer, kept until the picture of its timestamp comes out.
pub mod Recent
use nabu_iris.Common.{
  ℕ, zero, suc, ◌+◌, ◌-◌, ◌/◌, ◌^◌, ◌==◌, leb, if◌then◌else◌, List, [], ◌∷◌, bit_and, bit_or, set,
  get_or,
}
use nabu_iris.Common.Bits.{complement}
use nabu_iris.Buffer.{video_max_frame}

-- `struct iris_ts_metadata`, with the time code as a number.
pub record TsMetadata : Type 0 where
  pub ts_ns : ℕ
  pub ts_us : ℕ
  pub flags : ℕ
  pub tc : ℕ

-- inst->tss and inst->metadata_idx
pub record Stamps : Type 0 where
  pub tss : List TsMetadata
  pub metadata_idx : ℕ

-- What a v4l2 buffer carries.
pub record Stamped : Type 0 where
  pub timestamp : ℕ
  pub flags : ℕ
  pub timecode : ℕ

-- V4L2_BUF_FLAG_TIMECODE | V4L2_BUF_FLAG_TSTAMP_SRC_MASK
abbrev pub stamp_mask : ℕ
stamp_mask = 0x70100

abbrev pub no_metadata : TsMetadata
no_metadata = record { ts_ns = 0; ts_us = 0; flags = 0; tc = 0 }

abbrev pub metadata_of : Stamped → TsMetadata
metadata_of v = record {
  ts_ns = v.timestamp;
  ts_us = v.timestamp / 1000;
  flags = bit_and v.flags stamp_mask;
  tc = v.timecode;
}

-- The place of the next write.
abbrev pub write_idx : ℕ → ℕ
write_idx i = if leb video_max_frame i then 0 else i

unfoldable pub set_ts_metadata : Stamps → Stamped → Stamps
set_ts_metadata t v = record {
  tss = set t.tss (write_idx t.metadata_idx) (metadata_of v);
  metadata_idx = write_idx t.metadata_idx + 1;
}

-- The index that the loop stops at, from `i` on, or `last`.
unfoldable pub find_stamp : List TsMetadata → ℕ → ℕ → ℕ → ℕ
find_stamp [] ts i last = last
find_stamp (m ∷ ms) ts i last =
    let rest = find_stamp ms ts (i + 1) last in if m.ts_ns == ts then i else rest

-- The entry that is read.
unfoldable pub read_idx : Stamps → ℕ → ℕ
unfolding find_stamp
read_idx t ts = find_stamp t.tss ts 0 t.metadata_idx

abbrev pub with_metadata : Stamped → TsMetadata → Stamped
with_metadata v m = record v {
  flags = bit_or (bit_and v.flags (complement 32 stamp_mask)) m.flags;
  timecode = m.tc;
}

-- A read past the array gives `no_metadata`.
unfoldable pub get_ts_metadata : Stamps → ℕ → Stamped → Stamped
unfolding read_idx
get_ts_metadata t ts v = with_metadata v (get_or t.tss (read_idx t ts) no_metadata)
