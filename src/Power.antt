-- ===== src/Power.antt =====
-- iris_power.c, iris_resources.c and iris_vpu2.c: the votes on the clock and on the memory's bandwidth
-- that the sessions of a core make together, and iris_utils.c, the checks of its load. What the OPP
-- framework and the interconnect answer is an argument.
pub mod Tiers
pub mod Shares
pub mod Votes
use nabu_iris.Common.{
  ℕ, ◌+◌, ◌-◌, ◌*◌, ◌/◌, ◌%◌, ◌^◌, min, max, Bool, true, false, not, ◌&&◌, ◌||◌, ◌==◌, ltb, leb,
  if◌then◌else◌, Option, none, some, List, [], ◌∷◌, total, u32, enomem, zero, suc,
}
use nabu_iris.Instance.{Inst}
use nabu_iris.Core.{Core, Platform}
use nabu_iris.Session.{instance_at, update, get_mbpf, num_mbs_per_frame, u64}

-- The core, with what it last voted on the interconnect: power.icc_bw, and the bandwidth of the
-- "video-mem" path in its own table.
pub record Voter : Type 0 where
  pub core : Core
  pub icc_bw : ℕ
  pub avg_bw : ℕ

-- A row of `bw_tbl_dec`.
pub record BwInfo : Type 0 where
  pub mbs_per_sec : ℕ
  pub bw_ddr : ℕ

-- The limits of the "video-mem" path, where the platform has one, and the costs of a macroblock.
pub record Costs : Type 0 where
  pub bw_tbl : List BwInfo
  pub video_mem : Option (ℕ × ℕ)
  pub mb_cycles_vpp : ℕ
  pub mb_cycles_vsp : ℕ

-- DEFAULT_FPS
abbrev pub default_fps : ℕ
default_fps = 30

unfoldable pub get_operating_fps : Inst → ℕ
get_operating_fps inst = if inst.frame_rate == 0 then default_fps else inst.frame_rate

-- The rows behind the first one, up to the first that is too small.
unfoldable pub last_row : ℕ → ℕ → List BwInfo → ℕ
last_row mbps bw [] = bw
last_row mbps bw (row ∷ rows) =
    let rest = last_row mbps row.bw_ddr rows in if ltb row.mbs_per_sec mbps then bw else rest

unfoldable pub bw_for : ℕ → List BwInfo → ℕ
unfolding last_row
bw_for mbps [] = 0
bw_for mbps (row ∷ rows) = last_row mbps row.bw_ddr rows

unfoldable pub calc_bw : List BwInfo → ℕ → ℕ → ℕ → ℕ
calc_bw rows width height fps =
    let mbps = u32 (num_mbs_per_frame height width * fps) in
    if mbps == 0 then 0 else bw_for mbps rows

-- A session that is open and has input to decode or encode counts.
abbrev pub is_active : Inst → Bool
is_active i = i.hfi_session_opened && not (i.max_input_data_size == 0)

abbrev pub bw_share : Inst → ℕ
bw_share i = if is_active i then i.icc_bw else 0

abbrev pub freq_share : Inst → ℕ
freq_share i = if is_active i then i.min_freq else 0

-- BW_THRESHOLD
abbrev pub bw_threshold : ℕ
bw_threshold = 50000

abbrev pub distance : ℕ → ℕ → ℕ
distance a b = if ltb b a then a - b else b - a

abbrev pub clamp : ℕ → ℕ → ℕ → ℕ
clamp lo hi x = min (max x lo) hi

-- `answer` is that of `icc_bulk_set_bw`.
unfoldable pub set_icc_bw : Costs → Voter → ℕ → ℕ → ℕ × Voter
set_icc_bw p v bw answer = elim p.video_mem [
  | none ↦ (answer, v)
  | some (lo, hi) ↦
      if not (v.icc_bw == 0) && ltb (distance (clamp lo hi bw) v.icc_bw) bw_threshold
      then (0, v)
      else if answer == 0
      then (0, record v { icc_bw = clamp lo hi bw; avg_bw = clamp lo hi bw })
      else (answer, record v { avg_bw = v.icc_bw })
]

unfoldable pub set_interconnects : Costs → Voter → ℕ → ℕ × Voter
set_interconnects p v answer = set_icc_bw p v (u64 (total bw_share v.core.instances)) answer

unfoldable pub vote_interconnects : Costs → Voter → ℕ → ℕ → ℕ × Voter
vote_interconnects p v i answer =
    let inst = instance_at v.core i in
    let bw = calc_bw p.bw_tbl inst.src_width inst.src_height (get_operating_fps inst) in
    set_interconnects p (record v { core = update v.core i (record inst { icc_bw = bw }) }) answer

-- `lowest` is what `iris_vpu_min_freq` finds, and `answer` the code of `dev_pm_opp_set_rate`.
unfoldable pub set_clocks : Core → ℕ → ℕ → ℕ × Core
set_clocks c lowest answer =
    let sum = u64 (total freq_share c.instances) in
    let freq = (if sum == 0 then lowest else sum) in
    if (freq == 0) || (freq == c.clk_freq)
    then (0, c)
    else if answer == 0
    then (0, record c { clk_freq = freq })
    else (answer, c)

abbrev pub set_core : Voter → Core → Voter
set_core v c = record v { core = c }

-- The largest of the source buffers' payloads.
unfoldable pub max_data_size : List ℕ → ℕ
max_data_size [] = 0
max_data_size (n ∷ ns) = max n (max_data_size ns)

-- `calc_freq` of a VPU2, on u32 and u64.
unfoldable pub vpu2_calc_freq : Costs → Inst → ℕ → ℕ
unfolding get_operating_fps
vpu2_calc_freq p inst data_size =
    let fps = get_operating_fps inst in
    let mbs_per_second = u32 (get_mbpf inst * fps) in
    let vpp = u32 (mbs_per_second * p.mb_cycles_vpp) in
    let vsp = u32 (mbs_per_second * p.mb_cycles_vsp) in
    max (u64 (vpp + vpp / 20)) (u64 (vsp + u64 (fps * data_size * 8 * 10) / 7))

unfoldable pub scale_clocks : Costs → Core → ℕ → List ℕ → ℕ → ℕ → ℕ × Core
scale_clocks p c i payloads lowest answer =
    let size = max_data_size payloads in
    let inst = record (instance_at c i) { max_input_data_size = size } in
    if size == 0
    then (0, update c i inst)
    else set_clocks (update c i (record inst { min_freq = vpu2_calc_freq p inst size })) lowest
        answer

-- What one scaling of the power is answered. A device that is not suspended is not resumed.
pub record ScaleAnswers : Type 0 where
  pub resume : ℕ
  pub lowest : ℕ
  pub set_rate : ℕ
  pub set_bw : ℕ

unfoldable pub scale_power : Costs → Voter → ℕ → List ℕ → ScaleAnswers → ℕ × Voter
scale_power p v i payloads a =
    if not (a.resume == 0)
    then (a.resume, v)
    else (let (ret, c) = scale_clocks p v.core i payloads a.lowest a.set_rate in
        if not (ret == 0)
        then (ret, set_core v c)
        else vote_interconnects p (set_core v c) i a.set_bw)

abbrev pub unvoted : Inst → Inst
unvoted inst = record inst { max_input_data_size = 0; min_freq = 0; icc_bw = 0 }

unfoldable pub unvote_power : Costs → Voter → ℕ → ScaleAnswers → ℕ × Voter
unvote_power p v i a =
    let (ret, c) =
      set_clocks (update v.core i (unvoted (instance_at v.core i))) a.lowest a.set_rate in
    let (ret2, v') = set_interconnects p (set_core v c) a.set_bw in
    (if ret == 0 then ret2 else ret, v')

-- iris_utils.c
unfoldable pub res_is_less_than : ℕ → ℕ → ℕ → ℕ → Bool
res_is_less_than width height ref_width ref_height =
    ltb (num_mbs_per_frame height width) (num_mbs_per_frame ref_height ref_width)
    && (ltb width (max ref_width ref_height) && ltb height (max ref_width ref_height))

-- The position of an instance in the list stands for its address.
abbrev pub counted : (Inst → ℕ) → ℕ → List Inst → ℕ
counted load i [] = 0
counted load zero (inst ∷ is) =
    load inst + total (λ j. if j.hfi_session_opened then load j else 0) is
counted load (suc i) (inst ∷ is) =
    (if inst.hfi_session_opened then load inst else 0) + counted load i is

unfoldable pub check_core_mbpf : Core → ℕ → ℕ
check_core_mbpf c i =
    if ltb c.platform.max_core_mbpf (u32 (counted get_mbpf i c.instances)) then enomem else 0

unfoldable pub mbps : Inst → ℕ
mbps inst = get_mbpf inst * max inst.frame_rate inst.operating_rate

unfoldable pub check_core_mbps : Core → ℕ → ℕ
unfolding mbps
check_core_mbps c i =
    if ltb c.platform.max_core_mbps (u32 (counted mbps i c.instances)) then enomem else 0

unfoldable pub get_instance : List Inst → ℕ → Option Inst
get_instance [] id = none
get_instance (inst ∷ is) id = if inst.session_id == id then some inst else get_instance is id
