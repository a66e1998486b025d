-- ===== src/Http/Throttle/Budget.antt =====
-- The bounds of the waits of a run.
use cvebeacon.Prelude.{
  ℕ, zero, suc, ◌+◌, ◌≤◌, ◌≡◌, ◌≢◌, ◌⊎◌, inl, inr, refl, Option, none, some, List, [], ◌∷◌, arith,
  All, length, Option-cases, subst, ◌↔◌,
}
use cvebeacon.Http.Throttle.{Seconds, Throttle, Wait, no_delays, gave_up, slept, delay_at, wait}

abbrev pub sum : List ℕ → ℕ
sum [] = 0
sum (n ∷ ns) = n + sum ns

-- The settings of a throttle, and that it has kept them so far.
abbrev IsWithin : Throttle → Type 0
IsWithin t = (t.count ≤ t.maximum_retries) × (t.waited ≤ t.budget_seconds)

-- What one wait may do.
abbrev IsBounded : Throttle → Wait → Type 0
IsBounded t (slept n u) =
    (n ≤ t.maximum_delay)
    × (u.count ≡ t.count + 1)
    × (u.waited ≡ t.waited + n)
    × (u.maximum_delay ≡ t.maximum_delay)
    × (u.budget_seconds ≡ t.budget_seconds)
    × (u.maximum_retries ≡ t.maximum_retries)
    × IsWithin u
IsBounded t _ = Unit

wait-IsBounded :
    (t : Throttle) (retry_after : Option Seconds) → IsWithin t → IsBounded t (wait t retry_after)
unfolding wait
wait-IsBounded t none h = ground arith
wait-IsBounded t (some d) h = ground arith

-- The sleeps of a run: one wait after the other, with what the responses ask for, until one gives up.
unfoldable pub sleeps : Throttle → List (Option Seconds) → List ℕ
sleeps t [] = []
sleeps t (r ∷ rs) = elim (wait t r) [ slept n u ↦ n ∷ sleeps u rs | _ ↦ [] ]

abbrev AreBounded : Throttle → List ℕ → Type 0
AreBounded t ns =
    (sum ns + t.waited ≤ t.budget_seconds)
    × (length ns + t.count ≤ t.maximum_retries)
    × All (λ n. n ≤ t.maximum_delay) ns

after_sleep :
    (t u : Throttle) (n : ℕ) (ns : List ℕ)
    → IsBounded t (slept n u)
    → AreBounded u ns
    → AreBounded t (n ∷ ns)
after_sleep t u n ns h k =
    (omega (arith, h, k), omega (arith, h, k), (h.0, subst (λ m. All (λ i. i ≤ m) ns) h.3 k.2))

-- From a throttle within its limits, the sleeps of a run and the time waited before add up to at
-- most the budget, the sleeps and the retries before to at most the allowed number, and no sleep
-- is above the maximum delay.
pub sleeps_lem :
    (t : Throttle) (asked : List (Option Seconds))
    → t.count ≤ t.maximum_retries
    → t.waited ≤ t.budget_seconds
    → (sum (sleeps t asked) + t.waited ≤ t.budget_seconds)
      × (length (sleeps t asked) + t.count ≤ t.maximum_retries)
      × All (λ n. n ≤ t.maximum_delay) (sleeps t asked)
unfolding sleeps
sleeps_lem t [] h k = (omega arith, omega arith, tt)
sleeps_lem t (r ∷ rs) h k =
    step (wait t r) (wait-IsBounded t r (h, k)) (λ u c d. sleeps_lem u rs c d)
  where
    step :
        (w : Wait)
        → IsBounded t w
        → ((u : Throttle)
            → u.count ≤ u.maximum_retries
            → u.waited ≤ u.budget_seconds
            → AreBounded u (sleeps u rs))
        → AreBounded t (elim w [ slept n u ↦ n ∷ sleeps u rs | _ ↦ [] ])
    step no_delays b next = (omega arith, omega arith, tt)
    step gave_up b next = (omega arith, omega arith, tt)
    step (slept n u) b next = let (c, d) = b.6 in after_sleep t u n (sleeps u rs) b (next u c d)

delay_at-some : (ds : List Seconds) (n : ℕ) → ds ≢ [] → delay_at ds n ≢ none
unfolding delay_at
delay_at-some [] n h e = h refl
delay_at-some (d ∷ []) n h e = cc
delay_at-some (d ∷ c ∷ ds) zero h e = cc
delay_at-some (d ∷ c ∷ ds) (suc n) h e = delay_at-some (c ∷ ds) n (λ q. cc) e

-- With delays configured, a wait without a time from the response gives up exactly when the
-- retries or the budget are used up.
wait-none :
    (t : Throttle)
    → t.delays ≢ []
    → (wait t none ≡ gave_up) ↔ ((t.maximum_retries ≤ t.count) ⊎ (t.budget_seconds ≤ t.waited))
unfolding wait
wait-none t h = elim (Option-cases (delay_at t.delays t.count)) [
  | inl e ↦ absurd (delay_at-some t.delays t.count h e)
  | inr (d, e) ↦ ground arith
]
