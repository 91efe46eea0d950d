-- ===== src/Power/Tiers.antt =====
-- The bandwidth of a session, read off a table whose rows fall.
use nabu_iris.Common.{mul_mono, ◌^◌, ℕ, ◌*◌, ◌≤◌, ◌<◌, List, [], ◌∷◌, u32, arith}
use nabu_iris.Session.{num_mbs_per_frame}
use nabu_iris.Power.{BwInfo, last_row, bw_for, calc_bw}

-- Each row has no more bandwidth than the one before it.
abbrev pub Falls : ℕ → List BwInfo → Type 0
Falls bw [] = Unit {0}
Falls bw (row ∷ rows) = (row.bw_ddr ≤ bw) × Falls row.bw_ddr rows

last_row-le : (mbps bw : ℕ) (rows : List BwInfo) → Falls bw rows → last_row mbps bw rows ≤ bw
unfolding last_row
last_row-le mbps bw [] f = omega arith
last_row-le mbps bw (row ∷ rows) f = ground (arith, last_row-le mbps row.bw_ddr rows f.1)

last_row_mono :
    (m n bw : ℕ) (rows : List BwInfo)
    → m ≤ n
    → Falls bw rows
    → last_row m bw rows ≤ last_row n bw rows
unfolding last_row
last_row_mono m n bw [] h f = omega arith
last_row_mono m n bw (row ∷ rows) h f =
    ground (arith, last_row-le m row.bw_ddr rows f.1, last_row_mono m n row.bw_ddr rows h f.1)

abbrev pub Falling : List BwInfo → Type 0
Falling [] = Unit {0}
Falling (row ∷ rows) = Falls row.bw_ddr rows

bw_for_mono : (m n : ℕ) (rows : List BwInfo) → m ≤ n → Falling rows → bw_for m rows ≤ bw_for n rows
unfolding bw_for
bw_for_mono m n [] h f = omega arith
bw_for_mono m n (row ∷ rows) h f = last_row_mono m n row.bw_ddr rows h f

-- On a table whose bandwidth falls from row to row, a higher frame rate of one picture size asks for no
-- less bandwidth, while the macroblocks per second stay below 2 ^ 32.
pub calc_bw_mono :
    (rows : List BwInfo) (w h fps fps' : ℕ)
    → Falling rows
    → fps ≤ fps'
    → num_mbs_per_frame h w * fps' < 2 ^ 32
    → calc_bw rows w h fps ≤ calc_bw rows w h fps'
unfolding calc_bw
calc_bw_mono rows w h fps fps' f le small =
    let blocks = num_mbs_per_frame h w in
    let more = mul_mono blocks blocks fps fps' (omega arith) le in
    ground (
      arith,
      more,
      bw_for_mono (u32 (blocks * fps)) (u32 (blocks * fps')) rows (omega (arith, more)) f,
    )
