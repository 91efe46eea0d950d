-- ===== src/Power/Votes.antt =====
-- The vote on the interconnect follows the demand within a threshold.
use nabu_iris.Common.{ℕ, ◌≤◌, ◌<◌, ◌≡◌, ◌≢◌, some, arith}
use nabu_iris.Power.{Voter, Costs, set_icc_bw, bw_threshold, distance, clamp}

-- A vote that returns 0 on a platform with a path to the video memory: what was voted last is less than
-- 50000 kB/s away from the demand, limited to the range of the path.
pub set_icc_bw_follows :
    (p : Costs) (v : Voter) (lo hi bw answer : ℕ)
    → p.video_mem ≡ some (lo, hi)
    → lo ≤ hi
    → (set_icc_bw p v bw answer).0 ≡ 0
    → distance (clamp lo hi bw) (set_icc_bw p v bw answer).1.icc_bw < bw_threshold
unfolding set_icc_bw
set_icc_bw_follows p v lo hi bw answer m le ok = ground arith

-- A vote that is refused leaves the last one in place, in the table of the paths as well.
pub set_icc_bw_refused :
    (p : Costs) (v : Voter) (bw answer : ℕ)
    → v.avg_bw ≡ v.icc_bw
    → (set_icc_bw p v bw answer).0 ≢ 0
    → (set_icc_bw p v bw answer).1 ≡ v
unfolding set_icc_bw
set_icc_bw_refused p v bw answer same bad = ground arith
