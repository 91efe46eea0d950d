-- ===== src/Session/Setup.antt =====
-- iris_vb2_queue_setup of iris_vb2.c: the checks of a session, its admission when a client asks for
-- buffers, and the placeholder that keeps high addresses free for the pictures of VP9 on VPU5.
pub mod Admission
pub mod Placeholder
use nabu_iris.Common.{
  ℕ, ◌+◌, ◌-◌, Bool, true, false, not, ◌&&◌, ◌||◌, ◌==◌, ltb, leb, if◌then◌else◌, length, einval,
  ebusy, enomem,
}
use nabu_iris.Instance.{Inst, InstState}
use nabu_iris.State.{same_state}
use nabu_iris.Core.{Core}
use nabu_iris.Core.Boot.{BootAnswers}
use nabu_iris.Session.{
  instance_at, update, get_mbpf, OpenAnswer, hfi_session_open, reserve_core_load,
}
use nabu_iris.Power.{check_core_mbpf}

-- `struct platform_inst_caps`
pub record Caps : Type 0 where
  pub min_frame_width : ℕ
  pub max_frame_width : ℕ
  pub min_frame_height : ℕ
  pub max_frame_height : ℕ
  pub max_mbpf : ℕ

unfoldable pub check_inst_mbpf : Caps → Inst → ℕ
check_inst_mbpf caps inst = if ltb caps.max_mbpf (get_mbpf inst) then enomem else 0

unfoldable pub check_resolution_supported : Caps → Inst → ℕ
check_resolution_supported caps inst =
    if not (leb caps.min_frame_width inst.src_width && leb inst.src_width caps.max_frame_width)
      || not
          (leb caps.min_frame_height inst.src_height && leb inst.src_height caps.max_frame_height)
    then einval
    else 0

unfoldable pub check_session_supported : Caps → Core → ℕ → ℕ
check_session_supported caps c i =
    if not (ltb i (length c.instances))
    then einval
    else if not (check_core_mbpf c i == 0)
    then check_core_mbpf c i
    else if not (check_inst_mbpf caps (instance_at c i) == 0)
    then check_inst_mbpf caps (instance_at c i)
    else check_resolution_supported caps (instance_at c i)

-- `vp9_iova_hole_size` of an instance, and what the allocator gave for it and did not get back.
pub record Hole : Type 0 where
  pub vp9_iova_hole_size : ℕ
  pub dma : ℕ

-- IRIS1_VP9_IOVA_HOLE_SIZE
abbrev pub iova_hole_size : ℕ
iova_hole_size = 0x04000000

-- `needed` is `iris1_vp9_needs_iova_hole`, and `ok` whether the allocation succeeds.
unfoldable pub vp9_alloc_high_iova_hole : Bool → Bool → Hole → ℕ × Hole
vp9_alloc_high_iova_hole needed ok h =
    if not needed || not (h.vp9_iova_hole_size == 0)
    then (0, h)
    else if not ok
    then (enomem, h)
    else (0, record { vp9_iova_hole_size = iova_hole_size; dma = h.dma + iova_hole_size })

unfoldable pub vp9_release_high_iova_hole : Hole → Hole
vp9_release_high_iova_hole h =
    if h.vp9_iova_hole_size == 0
    then h
    else record { vp9_iova_hole_size = 0; dma = h.dma - h.vp9_iova_hole_size }

-- What one setup of a queue is asked and answered. `num_planes` and `size` are the client's.
pub record SetupAnswers : Type 0 where
  pub is_src : Bool
  pub num_planes : ℕ
  pub size : ℕ
  pub fmt_planes : ℕ
  pub sizeimage : ℕ
  pub boot : BootAnswers
  pub session_open : OpenAnswer
  pub admission_fps : ℕ
  pub needs_hole : Bool
  pub hole_ok : Bool

abbrev pub reject_load : Core → ℕ → Core
reject_load c i = update c i (record (instance_at c i) { core_load_rejected = true })

-- The end of a setup, with the load of the session reserved where it is asked for.
unfoldable pub setup_hole : Core → Hole → SetupAnswers → ℕ × Core × Hole
setup_hole c h a =
    if a.is_src
    then (let (ret, h') = vp9_alloc_high_iova_hole a.needs_hole a.hole_ok h in (ret, c, h'))
    else (0, c, vp9_release_high_iova_hole h)

unfoldable pub setup_load : Core → ℕ → Hole → SetupAnswers → ℕ × Core × Hole
setup_load c i h a =
    if not a.is_src && not (instance_at c i).core_load_reserved
    then (let (ret, c') = reserve_core_load c i a.admission_fps in
        if not (ret == 0) then (ret, reject_load c' i, h) else setup_hole c' h a)
    else setup_hole c h a

unfoldable pub setup_session : Caps → Core → ℕ → Hole → SetupAnswers → ℕ × Core × Hole
setup_session caps c i h a =
    if not (check_session_supported caps c i == 0)
    then (check_session_supported caps c i, c, h)
    else (let (ret, c') = hfi_session_open c i a.boot a.session_open in
        if not (ret == 0) then (ret, c', h) else setup_load c' i h a)

unfoldable pub vb2_queue_setup : Caps → Core → ℕ → Hole → SetupAnswers → ℕ × Core × Hole
vb2_queue_setup caps c i h a =
    if same_state (instance_at c i).state InstState.error
    then (ebusy, c, h)
    else if not (a.num_planes == 0)
    then (if not (a.num_planes == a.fmt_planes) || ltb a.size a.sizeimage then einval else 0, c, h)
    else if not a.is_src && (instance_at c i).core_load_rejected
    then (enomem, c, h)
    else setup_session caps c i h a
