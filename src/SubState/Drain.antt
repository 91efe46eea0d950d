-- ===== src/SubState/Drain.antt =====
-- The life of a drain and of a source change (drc): when each flag may be set, and when the client
-- may go on.
use nabu_iris.Common.{ℕ, Bool, true, false, ◌≡◌, ◌≢◌, ◌⊎◌, arith, bit_or}
use nabu_iris.Common.Bits.{has}
use nabu_iris.Instance.{deinit, input_streaming, streaming, error, Handle}
use nabu_iris.Instance.Flags.{
  first_ipsc, drc, drc_last, drain, drain_last, input_pause, output_pause,
}
use nabu_iris.State.{Plane, is_output}
use nabu_iris.SubState.{
  dec_start, change_sub_state, sub_state_change_drc, sub_state_change_drain_last,
  sub_state_change_drc_last, sub_state_change_pause, drc_pending, drain_pending, allow_cmd,
  update_sub_state,
}
use nabu_iris.SubState.Update.{has-update}

-- Where recording the last buffer of a drain succeeds on a live instance, a drain was in progress
-- and its last buffer was not recorded; it is now, and the output plane is paused.
pub drain_last_completes :
    (h : Handle)
    → h.inst.state ≢ error
    → (sub_state_change_drain_last h).0 ≡ 0
    → let sub' = (sub_state_change_drain_last h).1.inst.sub_state in
      (has h.inst.sub_state drain ≡ true)
      × (has h.inst.sub_state drain_last ≡ false)
      × (drain_pending sub' ≡ true)
      × (has sub' output_pause ≡ true)
unfolding sub_state_change_drain_last drain_pending
drain_last_completes h live ok = ground (
  arith,
  has-update 3 h.inst.sub_state 0 (bit_or drain_last output_pause) (omega arith) (omega arith),
  has-update 4 h.inst.sub_state 0 (bit_or drain_last output_pause) (omega arith) (omega arith),
  has-update 6 h.inst.sub_state 0 (bit_or drain_last output_pause) (omega arith) (omega arith),
)

-- Where recording the last buffer of a source change succeeds on a live instance, the change was
-- in progress with its input paused. Either it came before the output plane streamed, and nothing
-- is changed, or its last buffer is now recorded, with the output plane paused.
pub drc_last_completes :
    (h : Handle)
    → h.inst.state ≢ error
    → (sub_state_change_drc_last h).0 ≡ 0
    → let h' = (sub_state_change_drc_last h).1 in
      (has h.inst.sub_state drc ≡ true)
      × (has h.inst.sub_state input_pause ≡ true)
      × ((has h.inst.sub_state first_ipsc ≡ true) × (h' ≡ h)
          ⊎ (drc_pending h'.inst.sub_state ≡ true) × (has h'.inst.sub_state output_pause ≡ true))
unfolding sub_state_change_drc_last drc_pending
drc_last_completes h live ok = ground (
  arith,
  has-update 1 h.inst.sub_state 0 (bit_or drc_last output_pause) (omega arith) (omega arith),
  has-update 2 h.inst.sub_state 0 (bit_or drc_last output_pause) (omega arith) (omega arith),
  has-update 6 h.inst.sub_state 0 (bit_or drc_last output_pause) (omega arith) (omega arith),
)

-- The input plane of a live instance is paused only once the source change and the drain that are
-- in progress, if any, have reached their last buffers.
pub input_pause_waits :
    (h : Handle) (p : Plane)
    → h.inst.state ≢ error
    → is_output p ≡ true
    → (sub_state_change_pause h p).0 ≡ 0
    → ((has h.inst.sub_state drc ≡ false) ⊎ (drc_pending h.inst.sub_state ≡ true))
      × ((has h.inst.sub_state drain ≡ false) ⊎ (drain_pending h.inst.sub_state ≡ true))
      × (has (sub_state_change_pause h p).1.inst.sub_state input_pause ≡ true)
unfolding sub_state_change_pause drc_pending drain_pending
input_pause_waits h p live out ok =
    ground (arith, has-update 5 h.inst.sub_state 0 input_pause (omega arith) (omega arith))

-- A source change is recorded on a live instance only in a state with a streaming input plane, or
-- in DEINIT: in INIT and in OUTPUT_STREAMING the call is refused.
pub drc_needs_input :
    (h : Handle)
    → h.inst.state ≢ error
    → (sub_state_change_drc h).0 ≡ 0
    → ((h.inst.state ≡ input_streaming)
          × (has (sub_state_change_drc h).1.inst.sub_state first_ipsc ≡ true)
        ⊎ ((h.inst.state ≡ streaming) ⊎ (h.inst.state ≡ deinit))
          × (has (sub_state_change_drc h).1.inst.sub_state drc ≡ true))
      × (has (sub_state_change_drc h).1.inst.sub_state input_pause ≡ true)
unfolding sub_state_change_drc
drc_needs_input h live ok = ground (
  arith,
  has-update 0 h.inst.sub_state 0 (bit_or first_ipsc input_pause) (omega arith) (omega arith),
  has-update 5 h.inst.sub_state 0 (bit_or first_ipsc input_pause) (omega arith) (omega arith),
  has-update 1 h.inst.sub_state 0 (bit_or drc input_pause) (omega arith) (omega arith),
  has-update 5 h.inst.sub_state 0 (bit_or drc input_pause) (omega arith) (omega arith),
)

abbrev pub drain_begun : Handle → Handle
drain_begun h = (change_sub_state h 0 drain).1

abbrev pub drain_ended : Handle → Handle
drain_ended h = (sub_state_change_drain_last (drain_begun h)).1

-- In STREAMING, with the source queue streaming, no source change in progress and no last buffer
-- of a drain recorded, START is refused once a drain has begun and accepted after its last
-- buffer.
pub drain_then_start :
    (h : Handle) (dst : Bool)
    → h.inst.state ≡ streaming
    → has h.inst.sub_state drc ≡ false
    → has h.inst.sub_state drain_last ≡ false
    → (allow_cmd (drain_begun h) true dst dec_start ≡ false)
      × (allow_cmd (drain_ended h) true dst dec_start ≡ true)
unfolding allow_cmd change_sub_state sub_state_change_drain_last
drain_then_start h dst s no_drc no_last = ground (
  arith,
  has-update 1 sub 0 drain (omega arith) (omega arith),
  has-update 3 sub 0 drain (omega arith) (omega arith),
  has-update 4 sub 0 drain (omega arith) (omega arith),
  has-update 3 (update_sub_state sub 0 drain) 0 (bit_or drain_last output_pause) (omega arith)
      (omega arith),
  has-update 4 (update_sub_state sub 0 drain) 0 (bit_or drain_last output_pause) (omega arith)
      (omega arith),
)
  where
    sub : ℕ
    sub = h.inst.sub_state
