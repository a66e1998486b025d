-- ===== src/Http/Throttle/Tests.antt =====
-- The theorems on the throttle with the delays of the source, in seconds.
use cvebeacon.Prelude.{◌≡◌, refl, ◌≤◌, ◌+◌, none, some, [], ◌∷◌, arith, All, length}
use cvebeacon.Http.Throttle.{ahead, behind, Throttle, delay_at, wait}
use cvebeacon.Http.Throttle.Budget.{sum, sleeps, sleeps_lem}

abbrev fresh : Throttle
fresh = record {
  delays = ahead 60 ∷ ahead 120 ∷ ahead 240 ∷ [];
  maximum_delay = 240;
  budget_seconds = 600;
  maximum_retries = 20;
  count = 0;
  waited = 0;
}

sleeps_lem_example :
    (sum (sleeps fresh (none ∷ some (ahead 900) ∷ none ∷ none ∷ [])) + 0 ≤ 600)
    × (length (sleeps fresh (none ∷ some (ahead 900) ∷ none ∷ none ∷ [])) + 0 ≤ 20)
    × All (λ n. n ≤ 240) (sleeps fresh (none ∷ some (ahead 900) ∷ none ∷ none ∷ []))
sleeps_lem_example =
    sleeps_lem fresh (none ∷ some (ahead 900) ∷ none ∷ none ∷ []) (omega arith) (omega arith)

-- The last delay is cut to what is left of the budget.
four_sleeps :
    sleeps fresh (none ∷ some (ahead 200) ∷ some (behind 3) ∷ none ∷ none ∷ none ∷ [])
    ≡ 60 ∷ 200 ∷ 0 ∷ 240 ∷ 100 ∷ []
unfolding sleeps wait delay_at
four_sleeps = refl
