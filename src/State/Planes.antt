-- ===== src/State/Planes.antt =====
-- The streaming states against the two planes of a client: which of them is streaming.
use nabu_iris.Common.{
  Bool, true, false, not, if◌then◌else◌, Option, none, some, List, [], ◌∷◌, ◌≡◌, refl, ◌∙◌, arith,
  ap, map, Bool-cases, inl, inr,
}
use nabu_iris.Instance.{
  InstState, deinit, init, input_streaming, output_streaming, streaming, error, Handle,
}
use nabu_iris.State.{
  Plane, is_output, is_capture, change_state, state_change_streamon, state_change_streamoff,
}
use nabu_iris.State.Runs.{Request, streamon, streamoff, serve, serve_all}

-- The input plane streams, the output plane streams.
pub record Streams : Type 0 where
  pub input : Bool
  pub output : Bool

-- What the state says of the planes; `none` where no session can stream.
pub view : InstState → Option Streams
view init = some (record { input = false; output = false })
view input_streaming = some (record { input = true; output = false })
view output_streaming = some (record { input = false; output = true })
view streaming = some (record { input = true; output = true })
view deinit = none
view error = none

abbrev same : Bool → Bool → Bool
same true b = b
same false b = not b

-- A plane is switched once: a second STREAMON, a STREAMOFF of a plane at rest, and a buffer type
-- that is of neither direction, lose the session.
pub switch : Bool → Plane → Option Streams → Option Streams
switch on p none = none
switch on p (some s) =
    if is_output p
    then (if same on s.input then none else some (record s { input = on }))
    else if is_capture p
    then (if same on s.output then none else some (record s { output = on }))
    else none

pub view-streamon :
    (h : Handle) (p : Plane)
    → view (state_change_streamon h p).1.inst.state ≡ switch true p (view h.inst.state)
unfolding view switch change_state state_change_streamon
view-streamon h p = ground arith

pub view-streamoff :
    (h : Handle) (p : Plane)
    → view (state_change_streamoff h p).1.inst.state ≡ switch false p (view h.inst.state)
unfolding view switch change_state state_change_streamoff
view-streamoff h p = ground arith

-- One switch of a plane: on or off, and which.
pub record Switch : Type 0 where
  pub on : Bool
  pub plane : Plane

pub request : Switch → Request
request w = if w.on then streamon w.plane else streamoff w.plane

pub switch_all : List Switch → Option Streams → Option Streams
switch_all [] v = v
switch_all (w ∷ ws) v = switch_all ws (switch w.on w.plane v)

view-serve :
    (h : Handle) (w : Switch)
    → view (serve h (request w)).inst.state ≡ switch w.on w.plane (view h.inst.state)
unfolding serve request
view-serve h w = elim (Bool-cases w.on) [
  | inl e ↦ rw e (view-streamon h w.plane)
  | inr e ↦ rw e (view-streamoff h w.plane)
]

-- Over every sequence of STREAMON and STREAMOFF, of either plane or of a bad buffer type, the state
-- says which planes are streaming, as an account of the two planes kept apart from it does.
pub streaming_refines :
    (ws : List Switch) (h : Handle)
    → view (serve_all h (map request ws)).inst.state ≡ switch_all ws (view h.inst.state)
unfolding serve_all switch_all
streaming_refines [] h = refl
streaming_refines (w ∷ ws) h =
    streaming_refines ws (serve h (request w)) ∙ ap (switch_all ws) (view-serve h w)
