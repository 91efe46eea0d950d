-- ===== src/SubState.antt =====
-- iris_state.c: the sub-state flags of an instance, which tests allow a change of them, and which
-- commands of the client they let through. `x & mask` as a condition is `has x mask`.
pub mod Update
pub mod Drain
pub mod Runs
use nabu_iris.Common.{ℕ, Bool, true, false, not, ◌&&◌, ◌||◌, ◌==◌, ltb, if◌then◌else◌, einval}
use nabu_iris.Common.{bit_and, bit_or}
use nabu_iris.Common.Bits.{complement, has}
use nabu_iris.Instance.{
  InstState, deinit, init, input_streaming, output_streaming, streaming, error, Handle,
}
use nabu_iris.Instance.Flags.{
  first_ipsc, drc, drc_last, drain, drain_last, input_pause, output_pause, load_resources,
  max_sub_state_value,
}
use nabu_iris.State.{same_state, Plane, is_output}

-- The flags that some state lets be set, as the masks of the `switch`.
abbrev pub sub_state_mask : InstState → ℕ
sub_state_mask init = load_resources
sub_state_mask input_streaming = bit_or (bit_or first_ipsc drc) (bit_or drain input_pause)
sub_state_mask output_streaming =
    bit_or (bit_or drc_last drain_last) (bit_or output_pause load_resources)
sub_state_mask streaming =
    bit_or (bit_or (bit_or drc drain) (bit_or drc_last drain_last))
      (bit_or input_pause output_pause)
sub_state_mask deinit =
    bit_or (bit_or (bit_or drc drain) (bit_or drc_last drain_last))
      (bit_or input_pause output_pause)
sub_state_mask error = 0

unfoldable pub allow_sub_state : InstState → ℕ → Bool
allow_sub_state s sub = if sub == 0 then true else has sub (sub_state_mask s)

-- `inst->sub_state |= set; inst->sub_state &= ~clear;`
unfoldable pub update_sub_state : ℕ → ℕ → ℕ → ℕ
update_sub_state sub clear set = bit_and (bit_or sub set) (complement 32 clear)

-- `inst->sub_state = sub`
abbrev pub set_sub_state : Handle → ℕ → Handle
set_sub_state h sub = record h { inst = record (h.inst) { sub_state = sub } }

unfoldable pub change_sub_state : Handle → ℕ → ℕ → ℕ × Handle
unfolding allow_sub_state
change_sub_state h clear set =
    if same_state h.inst.state error
    then (0, h)
    else if (clear == 0) && (set == 0)
    then (0, h)
    else if has clear set || ltb max_sub_state_value set || ltb max_sub_state_value clear
    then (einval, h)
    else if not (allow_sub_state h.inst.state set)
    then (einval, h)
    else (0, set_sub_state h (update_sub_state h.inst.sub_state clear set))

unfoldable pub sub_state_change_drc : Handle → ℕ × Handle
unfolding change_sub_state
sub_state_change_drc h =
    if has h.inst.sub_state drc
    then (einval, h)
    else change_sub_state h 0 (
        if same_state h.inst.state input_streaming || same_state h.inst.state init
        then bit_or first_ipsc input_pause
        else bit_or drc input_pause)

unfoldable pub sub_state_change_drain_last : Handle → ℕ × Handle
unfolding change_sub_state
sub_state_change_drain_last h =
    if has h.inst.sub_state drain_last
    then (einval, h)
    else if not (has h.inst.sub_state drain)
    then (einval, h)
    else change_sub_state h 0 (bit_or drain_last output_pause)

unfoldable pub sub_state_change_drc_last : Handle → ℕ × Handle
unfolding change_sub_state
sub_state_change_drc_last h =
    if has h.inst.sub_state drc_last
    then (einval, h)
    else if not (has h.inst.sub_state drc) || not (has h.inst.sub_state input_pause)
    then (einval, h)
    else if has h.inst.sub_state first_ipsc
    then (0, h)
    else change_sub_state h 0 (bit_or drc_last output_pause)

unfoldable pub sub_state_change_pause : Handle → Plane → ℕ × Handle
unfolding change_sub_state
sub_state_change_pause h plane =
    if is_output plane
    then (if has sub drc && not (has sub drc_last)
        then (einval, h)
        else if has sub drain && not (has sub drain_last)
        then (einval, h)
        else change_sub_state h 0 input_pause)
    else change_sub_state h 0 output_pause
  where
    sub : ℕ
    sub = h.inst.sub_state

unfoldable pub drc_pending : ℕ → Bool
drc_pending sub = has sub drc && has sub drc_last

unfoldable pub drain_pending : ℕ → Bool
drain_pending sub = has sub drain && has sub drain_last

-- V4L2_DEC_CMD_START, V4L2_ENC_CMD_START, V4L2_DEC_CMD_STOP, V4L2_ENC_CMD_STOP, and any other.
pub data Command : Type 0 where
  dec_start enc_start dec_stop enc_stop other : Command

abbrev pub is_start : Command → Bool
is_start dec_start = true
is_start enc_start = true
is_start _ = false

abbrev pub is_stop : Command → Bool
is_stop dec_stop = true
is_stop enc_stop = true
is_stop _ = false

-- The two flags are what `vb2_is_streaming` answers on the source and the destination queue.
unfoldable pub allow_cmd : Handle → Bool → Bool → Command → Bool
unfolding drc_pending drain_pending
allow_cmd h src_streaming dst_streaming cmd =
    if is_start cmd
    then ((src_streaming || dst_streaming)
        && (drc_pending h.inst.sub_state || drain_pending h.inst.sub_state))
    else if is_stop cmd
    then src_streaming && not (h.inst.sub_state == drain)
    else false
