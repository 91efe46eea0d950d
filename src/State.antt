-- ===== src/State.antt =====
-- iris_state.c: the instance state machine. A function that changes `*inst`
-- returns its code (0, or the errno) and the new instance; `iris_request_core_recovery` is the
-- `recovery_pending` flag of the handle.
pub mod Graph
pub mod Runs
pub mod Planes
use nabu_iris.Common.{ℕ, Bool, true, false, not, ◌||◌, if◌then◌else◌, einval}
use nabu_iris.Instance.{
  InstState, deinit, init, input_streaming, output_streaming, streaming, error, Handle,
}

-- A v4l2 buffer type, by what V4L2_TYPE_IS_OUTPUT and V4L2_TYPE_IS_CAPTURE answer on it. The two
-- multi-planar video types are told apart from the others of their direction.
pub data Plane : Type 0 where
  output_mplane capture_mplane other_output other_capture invalid : Plane

abbrev pub is_output : Plane → Bool
is_output output_mplane = true
is_output other_output = true
is_output _ = false

abbrev pub is_capture : Plane → Bool
is_capture capture_mplane = true
is_capture other_capture = true
is_capture _ = false

abbrev pub same_state : InstState → InstState → Bool
same_state deinit deinit = true
same_state init init = true
same_state input_streaming input_streaming = true
same_state output_streaming output_streaming = true
same_state streaming streaming = true
same_state error error = true
same_state _ _ = false

unfoldable pub allow_inst_state_change : InstState → InstState → Bool
allow_inst_state_change init req =
    same_state req input_streaming || same_state req output_streaming || same_state req deinit
allow_inst_state_change input_streaming req =
    same_state req init || same_state req streaming || same_state req deinit
allow_inst_state_change output_streaming req =
    same_state req init || same_state req streaming || same_state req deinit
allow_inst_state_change streaming req =
    same_state req input_streaming || same_state req output_streaming || same_state req deinit
allow_inst_state_change deinit req = same_state req init
allow_inst_state_change error req = false

-- `inst->state = request_state`
set_state : Handle → InstState → Handle
set_state h req = record h { inst = record (h.inst) { state = req } }

unfoldable pub change_state : Handle → InstState → ℕ × Handle
unfolding allow_inst_state_change set_state
change_state h req =
    if same_state h.inst.state error
    then (0, h)
    else if same_state h.inst.state req
    then (0, h)
    else if same_state req error
    then (0, record (set_state h req) { recovery_pending = true })
    else if not (allow_inst_state_change h.inst.state req)
    then (einval, h)
    else (0, set_state h req)

streamon_target : InstState → Plane → InstState
streamon_target s plane =
    if is_output plane
    then (if same_state s init
        then input_streaming
        else if same_state s output_streaming
        then streaming
        else error)
    else if is_capture plane
    then (if same_state s init
        then output_streaming
        else if same_state s input_streaming
        then streaming
        else error)
    else error

unfoldable pub state_change_streamon : Handle → Plane → ℕ × Handle
unfolding change_state streamon_target
state_change_streamon h plane = change_state h (streamon_target h.inst.state plane)

streamoff_target : InstState → Plane → InstState
streamoff_target s plane =
    if is_output plane
    then (if same_state s input_streaming
        then init
        else if same_state s streaming
        then output_streaming
        else error)
    else if is_capture plane
    then (if same_state s output_streaming
        then init
        else if same_state s streaming
        then input_streaming
        else error)
    else error

unfoldable pub state_change_streamoff : Handle → Plane → ℕ × Handle
unfolding change_state streamoff_target
state_change_streamoff h plane = change_state h (streamoff_target h.inst.state plane)
