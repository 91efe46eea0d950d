-- ===== src/Session/Resized.antt =====
-- The sizes that the firmware writes into an open session, and what the admission counts of it then.
use nabu_iris.Common.{ℕ, ◌*◌, ◌≤◌, ◌<◌, ◌^◌, ltb, ◌&&◌, if◌then◌else◌, ◌≡◌, refl, arith}
use nabu_iris.Instance.{Inst}
use nabu_iris.Core.{Core}
use nabu_iris.Session.{get_mbpf, reserved_mbps, update, instance_at}
use nabu_iris.Session.Counts.{Admitted, shrink-Admitted, int_to_u64-small, product-small}

-- What `iris_hfi_gen1_read_changed_params` does with the sizes that an event of the firmware names.
unfoldable pub resized : Inst → ℕ → ℕ → ℕ → ℕ → Inst
resized inst width height crop_width crop_height =
    let cropped = ltb 0 crop_width && ltb 0 crop_height in
    record inst {
      src_width = width;
      src_height = height;
      crop_width = if cropped then crop_width else width;
      crop_height = if cropped then crop_height else height;
    }

-- What `iris_hfi_gen1_event_vp9_resize` does with the crop. A source change of the second generation of the
-- firmware is a `resize` without a crop and then a `recrop`.
unfoldable pub recropped : Inst → ℕ → ℕ → Inst
recropped inst width height = record inst { crop_width = width; crop_height = height }

product-le : (m n r : ℕ) → m ≤ n → m * r ≤ n * r
product-le m n r le = grind arith

resized_mbps :
    (inst v : Inst)
    → get_mbpf v ≤ get_mbpf inst
    → get_mbpf inst < 2 ^ 31
    → inst.admission_frame_rate < 2 ^ 32
    → v.admission_frame_rate ≡ inst.admission_frame_rate
    → v.core_load_reserved ≡ inst.core_load_reserved
    → reserved_mbps v ≤ reserved_mbps inst
resized_mbps inst v le s r same held = rw same (
    rw held (
      ground (
        arith,
        int_to_u64-small (get_mbpf v) (omega (arith, le, s)),
        int_to_u64-small (get_mbpf inst) s,
        product-le (get_mbpf v) (get_mbpf inst) inst.admission_frame_rate le,
        product-small (get_mbpf inst) inst.admission_frame_rate s r,
      )))

pub resized_same :
    (inst : Inst) (w h cw ch : ℕ)
    → let v = resized inst w h cw ch in
      (v.hfi_session_opened ≡ inst.hfi_session_opened)
      × (v.core_load_reserved ≡ inst.core_load_reserved)
      × (v.admission_frame_rate ≡ inst.admission_frame_rate)
unfolding resized
resized_same inst w h cw ch = (refl, refl, refl)

pub recropped_same :
    (inst : Inst) (w h : ℕ)
    → let v = recropped inst w h in
      (v.hfi_session_opened ≡ inst.hfi_session_opened)
      × (v.core_load_reserved ≡ inst.core_load_reserved)
      × (v.admission_frame_rate ≡ inst.admission_frame_rate)
unfolding recropped
recropped_same inst w h = (refl, refl, refl)

pub resize-Admitted :
    (c : Core) (i : ℕ) (v : Inst)
    → Admitted c
    → get_mbpf v ≤ get_mbpf (instance_at c i)
    → get_mbpf (instance_at c i) < 2 ^ 31
    → (instance_at c i).admission_frame_rate < 2 ^ 32
    → v.hfi_session_opened ≡ (instance_at c i).hfi_session_opened
    → v.core_load_reserved ≡ (instance_at c i).core_load_reserved
    → v.admission_frame_rate ≡ (instance_at c i).admission_frame_rate
    → Admitted (update c i v)
resize-Admitted c i v a le s r o l f =
    shrink-Admitted c i v a (rw o (omega arith)) (rw o (ground arith))
      (resized_mbps (instance_at c i) v le s r f l) (rw l (ground arith))
