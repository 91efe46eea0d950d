-- ===== src/Examples/Clients.antt =====
-- The buffers of a client, their time stamps, and the commands and the rate of a decoder.
use nabu_iris.Common.{
  ℕ, zero, suc, ◌||◌, ◌+◌, true, false, none, some, List, [], ◌∷◌, ◌≡◌, arith, refl, ebusy, length,
}
use nabu_iris.Instance.{InstState, Handle}
use nabu_iris.SubState.{dec_start, drc_pending, drain_pending, allow_cmd, change_sub_state}
use nabu_iris.Buffer.Clients.{Client, Ending, Lists, helper_buffers_done, vb2_buf_queue}
use nabu_iris.Buffer.Clients.Conserved.{
  account, in_returned, Step, returns, flushes, queues, run_all, failed_qbuf_twice,
}
use nabu_iris.Buffer.Clients.Offered.{Turn, drives, offers, apply_turns, offered_returns_all}
use nabu_iris.Buffer.Stamps.{
  TsMetadata, Stamps, Stamped, no_metadata, with_metadata, metadata_of, set_ts_metadata, read_idx,
  get_ts_metadata,
}
use nabu_iris.Buffer.Stamps.Recent.{set_all, get_ts_metadata-set_all, read_idx_past}
use nabu_iris.Coding.Commands.{
  CommandAnswers, dec_resume, start_pending, flushed_start, vdec_start_cmd, dec_cmd,
}
use nabu_iris.Coding.Unchanged.{dec_cmd_state, dec_start_running}
use nabu_iris.Coding.Resumed.{IsResumed, waited, dec_start_resumes}
use nabu_iris.Coding.Rate.{Meter, streamon_rate}
use nabu_iris.Coding.Measured.{InRange, qbuf_all, qbuf_all-InRange}
use nabu_iris.Examples.Data.{handle}

abbrev frame : ℕ → Client
frame i = record {
  index = i;
  bytesused = 4096;
  deferred = true;
  queued = false;
  buffer_done = false;
  failed = false;
  last = false;
}

abbrev two_frames : Lists
two_frames = record {
  handle = handle InstState.streaming 0;
  src = frame 0 ∷ frame 1 ∷ [];
  dst = frame 0 ∷ [];
  returned = [];
  stopped = false;
  eos_events = 0;
  sequence_cap = 0;
  sequence_out = 0;
}

abbrev accept : Client → ℕ
accept b = 0

abbrev steps : List Step
steps = queues true accept ∷ returns true false (frame 1) ∷ flushes false false ∷ []

-- A third buffer is queued between the steps.
abbrev turns : List Turn
turns =
    drives (queues true accept)
    ∷ offers true (frame 2) true 0
    ∷ drives (returns true false (frame 1))
    ∷ offers true (frame 1) false 0
    ∷ []

offered_returns_all_example :
    in_returned true 1
      (helper_buffers_done (apply_turns two_frames turns) true Ending.failed).returned
    ≡ account two_frames true 1 + 1
offered_returns_all_example =
    offered_returns_all true 1 two_frames turns Ending.failed (refl, (refl, tt))

no_last : drc_pending 0 || drain_pending 0 ≡ false
unfolding drc_pending drain_pending
no_last = refl

failed_qbuf_twice_example :
    in_returned true 2
      (helper_buffers_done
        (run_all (vb2_buf_queue two_frames true (frame 2) true 5).1 steps)
        true
        Ending.failed).returned
    ≡ account two_frames true 2 + 2
failed_qbuf_twice_example =
    failed_qbuf_twice two_frames true (frame 2) 5 steps Ending.failed (λ e. cc) (omega arith)
      no_last (omega arith)

abbrev blank : ℕ → List TsMetadata
blank zero = []
blank (suc n) = no_metadata ∷ blank n

-- The kept entries, with the place of the next write.
abbrev stamps : ℕ → Stamps
stamps i = record { tss = blank 32; metadata_idx = i }

abbrev stamped : ℕ → Stamped
stamped t = record { timestamp = t; flags = 0x10100; timecode = 7 }

get_ts_metadata-set_all_example :
    get_ts_metadata
      (set_all (set_ts_metadata (stamps 32) (stamped 1000)) (stamped 2000 ∷ stamped 3000 ∷ []))
      1000
      (stamped 1000)
    ≡ with_metadata (stamped 1000) (metadata_of (stamped 1000))
get_ts_metadata-set_all_example =
    get_ts_metadata-set_all (stamps 32) (stamped 1000) (stamped 1000)
      (stamped 2000 ∷ stamped 3000 ∷ []) refl (omega arith) (ground arith) (omega arith)
      (ground arith)

read_idx_past_example :
    read_idx (set_ts_metadata (stamps 31) (stamped 1000)) 5000
    ≡ length (set_ts_metadata (stamps 31) (stamped 1000)).tss
read_idx_past_example =
    read_idx_past (stamps 31) (stamped 1000) 5000 refl refl (ground arith) (omega arith)

abbrev commands_ok : CommandAnswers
commands_ok = record {
  legacy_vpu5 = true;
  capture_format_changed = false;
  flush = λ h. (0, h);
  resume_drc_input = 0;
  resume_drc_output = 0;
  resume_drain_input = none;
  resume_drain_output = some 0;
  queue_internal = 0;
  queue_output = 0;
  queue_input = 0;
  drain = 0;
}

-- A decoder that streams, drained to its last buffer, with its output paused.
abbrev drained : Handle
drained = handle InstState.streaming (8 + 16 + 64)

-- The same while it waits for a flush.
abbrev flushing : Handle
flushing = record drained { inst = record (drained.inst) { flush_responses_pending = 1 } }

flushed_starts : (dec_cmd flushing true true dec_start commands_ok).0 ≡ 0
unfolding dec_cmd allow_cmd vdec_start_cmd flushed_start start_pending dec_resume change_sub_state
flushed_starts = refl

dec_start_resumes_example :
    IsResumed
      (drc_pending (waited flushing commands_ok).inst.sub_state)
      (dec_cmd flushing true true dec_start commands_ok).1
dec_start_resumes_example =
    dec_start_resumes flushing true true commands_ok (λ e. cc) (λ e. cc) (λ e. cc) flushed_starts

dec_cmd_state_example :
    (dec_cmd drained true true dec_start commands_ok).1.inst.state ≡ drained.inst.state
dec_cmd_state_example = dec_cmd_state drained true true dec_start commands_ok refl

abbrev running : Handle
running = handle InstState.streaming 0

dec_start_running_example : dec_cmd running true true dec_start commands_ok ≡ (ebusy, running)
dec_start_running_example = dec_start_running running true true commands_ok refl refl

abbrev meter : Meter
meter = record {
  frame_rate = 0;
  frame_rate_down_count = 0;
  frame_counter = 0;
  last_buf_ns = 0;
  rate_min_timestamp = 0;
  rate_max_timestamp = 0;
  last_input_timestamp = 0;
  input_timestamp_valid = false;
}

-- Three buffers, half a second apart.
abbrev arrivals : List (ℕ × ℕ)
arrivals = (0, 100) ∷ (500000000, 500000100) ∷ (1000000000, 1000000100) ∷ []

qbuf_all-InRange_example : InRange (qbuf_all true (streamon_rate meter) arrivals)
qbuf_all-InRange_example = qbuf_all-InRange true meter arrivals
