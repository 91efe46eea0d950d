-- ===== src/Examples/Streams.antt =====
-- STREAMON of the two planes of a decoder that has a source change to finish.
use nabu_iris.Common.{false, some, none, ◌≡◌, ◌⊎◌, inr, refl}
use nabu_iris.Common.Bits.{has}
use nabu_iris.Instance.{InstState, Handle}
use nabu_iris.Instance.Flags.{first_ipsc, input_pause, output_pause}
use nabu_iris.State.{state_change_streamon}
use nabu_iris.SubState.{change_sub_state, drc_pending}
use nabu_iris.Session.Stream.{
  StreamAnswers, enter_streaming, prepare_input, start_output, process_streamon_output,
}
use nabu_iris.Session.Stream.Output.{streamon_output_resumes}
use nabu_iris.Examples.Data.{handle}

abbrev stream_ok : StreamAnswers
stream_ok = record {
  start = 0;
  pause = some 0;
  resume_drc = 0;
  resume_drain = none;
  internal_buffers = λ h. (0, h);
  stage = 0;
  pipe = 0;
}

-- The input plane streams, with its pause flag, and a source change is at its last buffer.
abbrev changed : Handle
changed = handle InstState.input_streaming 102

streamon_output_resumes_example :
    let h' = (process_streamon_output changed stream_ok).1 in
    ((h'.inst.state ≡ InstState.output_streaming) ⊎ (h'.inst.state ≡ InstState.streaming))
    × (drc_pending h'.inst.sub_state ≡ false)
    × (has h'.inst.sub_state first_ipsc ≡ false)
    × (has h'.inst.sub_state output_pause ≡ false)
    × (has h'.inst.sub_state input_pause ≡ false)
    × (h'.inst.last_buffer_dequeued ≡ false)
unfolding process_streamon_output start_output prepare_input enter_streaming state_change_streamon
    change_sub_state
streamon_output_resumes_example = streamon_output_resumes changed stream_ok (inr refl) refl refl
