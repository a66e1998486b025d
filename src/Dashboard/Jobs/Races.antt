-- ===== src/Dashboard/Jobs/Races.antt =====
-- What two calls for the same job make of each other, and what the start of the dashboard and a new
-- job leave.
use mathlib.Core.List.{Memᴰ}
use cvebeacon.Prelude.{
  ℕ, String, ◌≡◌, ◌⊎◌, inl, inr, refl, sym, subst, ap, ◌∙◌, Bool, true, false, Option, some, List,
  [], ◌∷◌, ◌==◌, arith, if◌then◌else◌, select, Bool-cases,
}
use cvebeacon.Dashboard.Jobs.{
  Job, is_active, is_queued, is_terminal, is_waiting, change_where, rowcount, active,
  fail_interrupted, mark_running, cancel_queued,
}

-- A change that ends the wait leaves no job to wait.
module _ (i : ℕ) (change : Job → Job) (ends : (j : Job) → is_queued (change j).status ≡ false) where
  waiting-change_where :
      (jobs : List Job) → rowcount (is_waiting i) (change_where (is_waiting i) change jobs) ≡ 0
  waiting-change_where [] = refl
  waiting-change_where (j ∷ js) = ground (arith, waiting-change_where js, ends j)

-- After a start of a job its cancellation as queued fails, and after such a cancellation its
-- start fails.
mark_running-cancel_queued :
    (i : ℕ) (actor : Option String) (now later : String) (jobs : List Job)
    → ((cancel_queued i actor later (mark_running i now jobs).1).0 ≡ false)
      × ((mark_running i later (cancel_queued i actor now jobs).1).0 ≡ false)
unfolding mark_running cancel_queued
mark_running-cancel_queued i actor now later jobs = (
  ap (λ n. n == 1) (waiting-change_where i _ (λ j. refl) jobs),
  ap (λ n. n == 1) (waiting-change_where i _ (λ j. refl) jobs),
)

-- Row by row: a finished job is as it was, and every job is finished.
abbrev pub IsClosed : List Job → List Job → Type 0
IsClosed [] [] = Unit
IsClosed (j ∷ js) (k ∷ ks) =
    (k.id ≡ j.id)
    × (is_terminal k.status ≡ true)
    × ((is_active j.status ≡ true) × (k.audit_pending ≡ some "job_failed") ⊎ (k ≡ j))
    × IsClosed js ks
IsClosed _ _ = ⊥

fail_interrupted-IsClosed :
    (now : String) (jobs : List Job) → IsClosed jobs (fail_interrupted now jobs).1
unfolding fail_interrupted
fail_interrupted-IsClosed now [] = tt
fail_interrupted-IsClosed now (j ∷ js) = ground (arith, fail_interrupted-IsClosed now js)

closed-active : (jobs after : List Job) → IsClosed jobs after → active after ≡ []
unfolding active
closed-active [] [] h = refl
closed-active [] (k ∷ ks) h = absurd h
closed-active (j ∷ js) [] h = absurd h
closed-active (j ∷ js) (k ∷ ks) h = ground (arith, closed-active js ks h.3)

-- At the start of the dashboard every active job becomes terminal with an audit entry to write,
-- the other jobs are as they were, and no job is active.
pub fail_interrupted_lem :
    (now : String) (jobs : List Job)
    → IsClosed jobs (fail_interrupted now jobs).1 × (active (fail_interrupted now jobs).1 ≡ [])
fail_interrupted_lem now jobs = (
  fail_interrupted-IsClosed now jobs,
  closed-active jobs (fail_interrupted now jobs).1 (fail_interrupted-IsClosed now jobs),
)

pub select-mem :
    (p : Job → Bool) (j : Job) (jobs : List Job) → Memᴰ j jobs → p j ≡ true → Memᴰ j (select p jobs)
select-mem p j [] m e = elim m [ ]
select-mem p j (k ∷ ks) (Memᴰ.head q) e =
    subst (λ b. Memᴰ j (if b then k ∷ select p ks else select p ks)) (sym (sym (ap p q) ∙ e))
      (Memᴰ.head q)
select-mem p j (k ∷ ks) (Memᴰ.tail m) e = elim (Bool-cases (p k)) [
  | inl h ↦
      subst (λ b. Memᴰ j (if b then k ∷ select p ks else select p ks)) (sym h)
        (Memᴰ.tail (select-mem p j ks m e))
  | inr h ↦
      subst (λ b. Memᴰ j (if b then k ∷ select p ks else select p ks)) (sym h)
        (select-mem p j ks m e)
]
