-- ===== src/State/Runs.antt =====
-- Sequences of state requests on one instance: what no sequence can undo.
use nabu_iris.Common.{◌⊎◌, ◌≢◌, true, List, [], ◌∷◌, ◌≡◌, refl, arith}
use nabu_iris.Instance.{InstState, error, Handle}
use nabu_iris.State.{Plane, change_state, state_change_streamon, state_change_streamoff}

-- A call of one of the three functions that write `inst->state`.
pub data Request : Type 0 where
  change : InstState → Request
  streamon : Plane → Request
  streamoff : Plane → Request

unfoldable pub serve : Handle → Request → Handle
serve h (change s) = (change_state h s).1
serve h (streamon p) = (state_change_streamon h p).1
serve h (streamoff p) = (state_change_streamoff h p).1

unfoldable pub serve_all : Handle → List Request → Handle
serve_all h [] = h
serve_all h (r ∷ rs) = serve_all (serve h r) rs

-- A dead instance has asked for a power-cycle of the core.
pub record IsReported (h : Handle) : Type 0 where
  pub reported : (h.inst.state ≢ error) ⊎ (h.recovery_pending ≡ true)

pub serve-IsReported : (h : Handle) (r : Request) → IsReported h → IsReported (serve h r)
unfolding serve change_state state_change_streamon state_change_streamoff
serve-IsReported h (change s) v = ground arith
serve-IsReported h (streamon p) v = ground arith
serve-IsReported h (streamoff p) v = ground arith

-- No sequence of requests leaves an instance in ERROR without the recovery flag of its core
-- raised, if none was so before.
pub serve_all-IsReported :
    (rs : List Request) (h : Handle) → IsReported h → IsReported (serve_all h rs)
unfolding serve_all
serve_all-IsReported [] h v = v
serve_all-IsReported (r ∷ rs) h v = serve_all-IsReported rs (serve h r) (serve-IsReported h r v)

serve_error : (h : Handle) (r : Request) → h.inst.state ≡ error → serve h r ≡ h
unfolding serve change_state state_change_streamon state_change_streamoff
serve_error h (change s) e = ground arith
serve_error h (streamon p) e = ground arith
serve_error h (streamoff p) e = ground arith

-- ERROR is absorbing: no sequence of requests changes a dead instance.
pub serve_all_error : (rs : List Request) (h : Handle) → h.inst.state ≡ error → serve_all h rs ≡ h
unfolding serve_all
serve_all_error [] h e = refl
serve_all_error (r ∷ rs) h e = rw (serve_error h r e) (serve_all_error rs h e)
