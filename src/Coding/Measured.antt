-- ===== src/Coding/Measured.antt =====
-- The measured rate stays in its range, and falls only after three windows.
use nabu_iris.Common.{
  ℕ, ◌≤◌, ◌<◌, ◌≡◌, ◌⊎◌, Bool, ltb, u32, ◌-◌, none, some, List, [], ◌∷◌, arith, either_branch,
}
use nabu_iris.Power.{default_fps}
use nabu_iris.Coding.Rate.{
  Meter, maximum_fps, nsec_per_sec, reset_rate_window, sub_u64, get_admission_fps,
  track_input_timestamp, count_frame, measured_fps, target_fps, vote_rate, measure, qbuf_input,
  streamon_rate,
}

-- Buffers, each with its timestamp and the time of its arrival.
unfoldable pub qbuf_all : Bool → Meter → List (ℕ × ℕ) → Meter
qbuf_all legacy m [] = m
qbuf_all legacy m ((timestamp, now) ∷ rest) =
    qbuf_all legacy (qbuf_input legacy m timestamp now) rest

-- The rate is in the range of the votes, and fewer than three windows in a row were lower.
pub record InRange (m : Meter) : Type 0 where
  pub low : default_fps ≤ m.frame_rate
  pub high : m.frame_rate ≤ maximum_fps
  pub pending : m.frame_rate_down_count < 3

target_in_range : (n : ℕ) → (default_fps ≤ target_fps n) × (target_fps n ≤ maximum_fps)
unfolding target_fps
target_in_range n = omega arith

vote-InRange :
    (m : Meter) (t : ℕ) → default_fps ≤ t → t ≤ maximum_fps → InRange m → InRange (vote_rate m t)
unfolding vote_rate
vote-InRange m t low high r = ground arith

track_same :
    (legacy : Bool) (m : Meter) (ts : ℕ)
    → ((track_input_timestamp legacy m ts).frame_rate ≡ m.frame_rate)
      × ((track_input_timestamp legacy m ts).frame_rate_down_count ≡ m.frame_rate_down_count)
unfolding track_input_timestamp reset_rate_window
track_same legacy m ts = ground arith

count_same :
    (m : Meter) (ts now : ℕ)
    → ((count_frame m ts now).frame_rate ≡ m.frame_rate)
      × ((count_frame m ts now).frame_rate_down_count ≡ m.frame_rate_down_count)
unfolding count_frame
count_same m ts now = ground arith

reset-InRange : (m : Meter) → InRange m → InRange (reset_rate_window m)
unfolding reset_rate_window
reset-InRange m r = record { low = r.low; high = r.high; pending = r.pending }

-- The window with one buffer more.
abbrev windowed : Bool → Meter → ℕ → ℕ → Meter
windowed legacy m ts now = count_frame (track_input_timestamp legacy m ts) ts now

module _ (legacy : Bool) (m : Meter) (ts now : ℕ) where
  windowed_same :
      ((windowed legacy m ts now).frame_rate ≡ m.frame_rate)
      × ((windowed legacy m ts now).frame_rate_down_count ≡ m.frame_rate_down_count)
  windowed_same =
      ground (arith, track_same legacy m ts, count_same (track_input_timestamp legacy m ts) ts now)

  windowed-InRange : InRange m → InRange (windowed legacy m ts now)
  windowed-InRange r = record {
    low = omega (arith, windowed_same.0, r.low);
    high = omega (arith, windowed_same.0, r.high);
    pending = omega (arith, windowed_same.1, r.pending);
  }

  qbuf-InRange : InRange m → InRange (qbuf_input legacy m ts now)
  unfolding qbuf_input measure
  qbuf-InRange r =
      let counted = windowed legacy m ts now in
      let target = target_fps (measured_fps legacy counted (sub_u64 now counted.last_buf_ns)) in
      either_branch InRange (ltb (sub_u64 now counted.last_buf_ns) nsec_per_sec) counted
        (reset_rate_window (vote_rate counted target)) (windowed-InRange r)
        (reset-InRange (vote_rate counted target) (
          vote-InRange counted target (target_in_range _).0 (target_in_range _).1
            (windowed-InRange r)))

streamon-InRange : (m : Meter) → InRange (streamon_rate m)
unfolding streamon_rate reset_rate_window
streamon-InRange m = record { low = omega arith; high = omega arith; pending = omega arith }

each-InRange :
    (legacy : Bool) (m : Meter) (bs : List (ℕ × ℕ)) → InRange m → InRange (qbuf_all legacy m bs)
unfolding qbuf_all
each-InRange legacy m [] r = r
each-InRange legacy m ((ts, now) ∷ rest) r =
    each-InRange legacy (qbuf_input legacy m ts now) rest (qbuf-InRange legacy m ts now r)

-- The rate that an admission asks for is from 1 to 480, where its division has a divisor.
pub admission_in_range :
    (m : Meter) (mbpf fps : ℕ)
    → get_admission_fps m mbpf ≡ some fps
    → (1 ≤ fps) × (fps ≤ maximum_fps)
unfolding get_admission_fps
admission_in_range m mbpf fps e = ground arith

-- It has none where the timestamps of a window span a multiple of 2 ^ 32 nanoseconds.
pub admission_divides_by_zero :
    (m : Meter) (mbpf : ℕ)
    → 1 < m.frame_counter
    → m.rate_min_timestamp < m.rate_max_timestamp
    → u32 (m.rate_max_timestamp - m.rate_min_timestamp) ≡ 0
    → get_admission_fps m mbpf ≡ none
unfolding get_admission_fps
admission_divides_by_zero m mbpf some_frames later span = ground arith

-- Over any buffers of a stream, whatever their timestamps and the times of their arrival, the rate
-- that a decoder votes with stays from 30 to 480 frames per second, and fewer than three lower windows
-- are counted.
pub qbuf_all-InRange :
    (legacy : Bool) (m : Meter) (bs : List (ℕ × ℕ)) → InRange (qbuf_all legacy (streamon_rate m) bs)
qbuf_all-InRange legacy m bs = each-InRange legacy (streamon_rate m) bs (streamon-InRange m)

-- One buffer lowers the rate only from its start value of 480, or as the third lower window in a row.
pub qbuf_input_falls :
    (legacy : Bool) (m : Meter) (ts now : ℕ)
    → InRange m
    → (qbuf_input legacy m ts now).frame_rate < m.frame_rate
    → (m.frame_rate ≡ maximum_fps) ⊎ (m.frame_rate_down_count ≡ 2)
unfolding qbuf_input measure vote_rate reset_rate_window
qbuf_input_falls legacy m ts now r falls = ground (arith, windowed_same legacy m ts now, r)
