-- ===== src/Keeper/Ceremony/Quorum.antt =====
-- The ceremony quorum and the tally threshold (x/vote/keeper/keeper_ceremony.go).
use vote_sdk.Base.{ℕ, ◌+◌, ◌*◌, ◌/◌, ◌≤◌, ◌<◌, ◌≡◌, ok, arith, ltb, ◌==◌, if◌then◌else◌}
use vote_sdk.Keeper.Ceremony.{threshold_for_n, required_ceremony_quorum_for_n}

-- For one validator or more both thresholds are given. The tally threshold t is the least number with
-- 3t ≥ 2n, and the ceremony quorum q the least with 5q ≥ 4n; q is at most n and at least t, so a
-- ceremony that is confirmed at the quorum can still be tallied.
pub threshold-le-quorum :
    (n : ℕ)
    → 1 ≤ n
    → (t : ℕ) × (q : ℕ) × (threshold_for_n n ≡ ok t)
      × (required_ceremony_quorum_for_n n ≡ ok q)
      × (2 * n ≤ 3 * t)
      × (3 * t < 2 * n + 3)
      × (t ≤ q)
      × (q ≤ n)
      × (4 * n ≤ 5 * q)
      × (5 * q < 4 * n + 5)
unfolding threshold_for_n required_ceremony_quorum_for_n
threshold-le-quorum n h = (
  (if n == 1 then 1 else if ltb ((2 * n + 2) / 3) 2 then 2 else (2 * n + 2) / 3),
  (4 * n + 4) / 5,
  ground arith,
  ground arith,
  ground arith,
  ground arith,
  ground arith,
  ground arith,
  omega arith,
  omega arith,
)
