-- ===== src/Coding/Rate.antt =====
-- iris_vdec.c: the input rate of a decoder, measured over windows of a second, which its votes on the
-- clock are made from. `now` is `ktime_get_ns`; numbers of the code's widths wrap around.
use nabu_iris.Common.{
  ℕ, ◌+◌, ◌-◌, ◌*◌, ◌/◌, ◌^◌, min, max, Bool, true, false, not, ◌&&◌, ◌||◌, ◌==◌, ltb, leb,
  if◌then◌else◌, u32, sub_u32, Option, none, some,
}
use nabu_iris.Session.{u64, num_mbs_per_frame}
use nabu_iris.Power.{default_fps, clamp}

-- The part of `struct iris_inst` that the measurement keeps.
pub record Meter : Type 0 where
  pub frame_rate : ℕ
  pub frame_rate_down_count : ℕ
  pub frame_counter : ℕ
  pub last_buf_ns : ℕ
  pub rate_min_timestamp : ℕ
  pub rate_max_timestamp : ℕ
  pub last_input_timestamp : ℕ
  pub input_timestamp_valid : Bool

-- MAXIMUM_FPS
abbrev pub maximum_fps : ℕ
maximum_fps = 480

abbrev pub nsec_per_sec : ℕ
nsec_per_sec = 1000000000

-- `a - b` on u64
abbrev pub sub_u64 : ℕ → ℕ → ℕ
sub_u64 a b = u64 (a + 2 ^ 64 - b)

-- IRIS1_MAX_4K_MBPF
abbrev pub iris1_max_4k_mbpf : ℕ
iris1_max_4k_mbpf = num_mbs_per_frame 2176 4096

unfoldable pub reset_rate_window : Meter → Meter
reset_rate_window m = record m {
  last_buf_ns = 0;
  rate_min_timestamp = 0;
  rate_max_timestamp = 0;
  frame_counter = 0;
}

-- Intervals per second, rounded up, on u64.
abbrev pub per_second : ℕ → ℕ → ℕ
per_second frames span = u64 (sub_u32 frames 1 * nsec_per_sec + span - 1) / span

-- DIV_ROUND_UP_ULL, which takes its divisor as a u32: none where that is 0.
abbrev pub per_second_ull : ℕ → ℕ → Option ℕ
per_second_ull frames span =
    if u32 span == 0
    then none
    else some (u64 (sub_u32 frames 1 * nsec_per_sec + span - 1) / u32 span)

-- `mbpf` is `iris_get_mbpf`; none stands for a division by 0.
unfoldable pub get_admission_fps : Meter → ℕ → Option ℕ
get_admission_fps m mbpf =
    if ltb 1 m.frame_counter && ltb m.rate_min_timestamp m.rate_max_timestamp
    then elim (per_second_ull m.frame_counter (m.rate_max_timestamp - m.rate_min_timestamp)) [
      | none ↦ none
      | some fps ↦ some (clamp 1 maximum_fps (u32 fps))
    ]
    else if ltb iris1_max_4k_mbpf mbpf
    then some 30
    else some 60

-- A jump of more than a second starts a new window.
unfoldable pub track_input_timestamp : Bool → Meter → ℕ → Meter
track_input_timestamp legacy m timestamp =
    if not legacy
    then m
    else (let last = m.last_input_timestamp in
        let delta = (if ltb last timestamp then timestamp - last else last - timestamp) in
        let m' =
          (if m.input_timestamp_valid && ltb nsec_per_sec delta then reset_rate_window m else m) in
        record m' { last_input_timestamp = timestamp; input_timestamp_valid = true })

-- A buffer in the window.
unfoldable pub count_frame : Meter → ℕ → ℕ → Meter
count_frame m timestamp now =
    if m.frame_counter == 0
    then record m {
      last_buf_ns = now;
      rate_min_timestamp = timestamp;
      rate_max_timestamp = timestamp;
      frame_counter = 1;
    }
    else record m {
      rate_min_timestamp = min m.rate_min_timestamp timestamp;
      rate_max_timestamp = max m.rate_max_timestamp timestamp;
      frame_counter = u32 (m.frame_counter + 1);
    }

-- What a window measured, by the clock and, on VPU5, by the timestamps.
unfoldable pub measured_fps : Bool → Meter → ℕ → ℕ
measured_fps legacy m delta =
    let span = sub_u64 m.rate_max_timestamp m.rate_min_timestamp in
    let stamped =
      (if legacy && (not (span == 0) && ltb 1 m.frame_counter)
        then u32 (per_second m.frame_counter span)
        else 0) in
    clamp 1 maximum_fps (max (u32 (per_second m.frame_counter delta)) stamped)

-- A tenth above it.
unfoldable pub target_fps : ℕ → ℕ
target_fps measured = clamp default_fps maximum_fps ((measured * 11 + 9) / 10)

-- The rate rises at once, and falls after three lower windows.
unfoldable pub vote_rate : Meter → ℕ → Meter
vote_rate m target =
    if (m.frame_rate == maximum_fps) || leb m.frame_rate target
    then record m { frame_rate = target; frame_rate_down_count = 0 }
    else if leb 3 (u32 (m.frame_rate_down_count + 1))
    then record m { frame_rate = target; frame_rate_down_count = 0 }
    else record m { frame_rate_down_count = u32 (m.frame_rate_down_count + 1) }

-- The part of `iris_vdec_qbuf` about an input buffer of a queue that streams.
unfoldable pub measure : Bool → Meter → ℕ → ℕ → Meter
measure legacy m timestamp now =
    let counted = count_frame m timestamp now in
    let delta = sub_u64 now counted.last_buf_ns in
    if ltb delta nsec_per_sec
    then counted
    else reset_rate_window (vote_rate counted (target_fps (measured_fps legacy counted delta)))

unfoldable pub qbuf_input : Bool → Meter → ℕ → ℕ → Meter
qbuf_input legacy m timestamp now =
    measure legacy (track_input_timestamp legacy m timestamp) timestamp now

-- What `iris_vdec_streamon_input` starts from.
unfoldable pub streamon_rate : Meter → Meter
streamon_rate m = reset_rate_window (record m {
  input_timestamp_valid = false;
  frame_rate = maximum_fps;
  frame_rate_down_count = 0;
})
