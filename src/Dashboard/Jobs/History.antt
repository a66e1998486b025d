-- ===== src/Dashboard/Jobs/History.antt =====
-- The bound on the history, which the creation of a job keeps.
use mathlib.Core.List.{Memᴰ}
use cvebeacon.Prelude.{
  ℕ, suc, ◌≤◌, ◌<◌, String, ◌≡◌, refl, Bool, true, false, some, List, [], ◌∷◌, ◌++◌, ◌&&◌, ltb, All,
  arith, select, length,
}
use cvebeacon.Dashboard.Jobs.{
  queued, running, Job, JobTable, is_terminal, is_settled, rowcount, queued_job, is_retained,
  newer_finished, max_jobs, create,
}
use cvebeacon.Dashboard.Jobs.Races.{select-mem}

abbrev finished_job : Job → Bool
finished_job k = is_terminal k.status

-- The identifiers ascend, and the sequence gave them all.
abbrev pub IsNumbered : List Job → ℕ → Type 0
IsNumbered [] bound = Unit
IsNumbered (j ∷ js) bound = All (λ (k : Job). j.id < k.id) js × (j.id ≤ bound) × IsNumbered js bound

append-All :
    (i : ℕ) (js : List Job) (k : Job)
    → All (λ (j : Job). i < j.id) js
    → i < k.id
    → All (λ (j : Job). i < j.id) (js ++ k ∷ [])
append-All i [] k h l = (l, tt)
append-All i (j ∷ js) k h l = (h.0, append-All i js k h.1 l)

append-IsNumbered :
    (js : List Job) (bound : ℕ) (k : Job)
    → IsNumbered js bound
    → k.id ≡ suc bound
    → IsNumbered (js ++ k ∷ []) (suc bound)
append-IsNumbered [] bound k h e = (tt, omega arith, tt)
append-IsNumbered (j ∷ js) bound k h e = (
  append-All j.id js k h.0 (omega (arith, h.1)),
  omega (arith, h.1),
  append-IsNumbered js bound k h.2 e,
)

select-All :
    (p : Job → Bool) (i : ℕ) (js : List Job)
    → All (λ (j : Job). i < j.id) js
    → All (λ (j : Job). i < j.id) (select p js)
select-All p i [] h = tt
select-All p i (j ∷ js) h = ground (arith, select-All p i js h.1)

select-IsNumbered :
    (p : Job → Bool) (js : List Job) (bound : ℕ)
    → IsNumbered js bound
    → IsNumbered (select p js) bound
select-IsNumbered p [] bound h = tt
select-IsNumbered p (j ∷ js) bound h =
    ground (arith, select-IsNumbered p js bound h.2, select-All p j.id js h.0)

-- All the finished jobs behind a job are newer.
newer-tail :
    (j : Job) (js : List Job)
    → All (λ (k : Job). j.id < k.id) js
    → newer_finished js j ≡ rowcount finished_job js
newer-tail j [] h = refl
newer-tail j (k ∷ js) h = ground (arith, newer-tail j js h.1, h.0)

settled-le :
    (p : Job → Bool) (js : List Job) → rowcount is_settled (select p js) ≤ rowcount finished_job js
settled-le p [] = omega arith
settled-le p (j ∷ js) = ground (arith, settled-le p js)

-- The settled jobs of the end of a table that are retained.
retained_bound :
    (all xs : List Job) (bound : ℕ)
    → IsNumbered xs bound
    → ((p : Job → Bool) → rowcount p xs ≤ rowcount p all)
    → rowcount is_settled (select (is_retained all) xs) ≤ max_jobs
retained_bound all [] bound h part = omega arith
retained_bound all (j ∷ js) bound h part =
    let rest = retained_bound all js bound h.2 (λ p. omega (arith, part p)) in
    let newer = part (λ (k : Job). is_terminal k.status && ltb j.id k.id) in
    ground (arith, rest, newer, newer-tail j js h.0, settled-le (is_retained all) js)

last-mem : (js : List Job) (k : Job) → Memᴰ k (js ++ k ∷ [])
last-mem [] k = Memᴰ.head refl
last-mem (j ∷ js) k = Memᴰ.tail (last-mem js k)

append-mem : (j : Job) (js : List Job) (k : Job) → Memᴰ j js → Memᴰ j (js ++ k ∷ [])
append-mem j [] k m = elim m [ ]
append-mem j (i ∷ js) k (Memᴰ.head e) = Memᴰ.head e
append-mem j (i ∷ js) k (Memᴰ.tail m) = Memᴰ.tail (append-mem j js k m)

-- In a table whose identifiers ascend and do not exceed its sequence, a new job has an identifier
-- above all others and is in the table, the identifiers of the new table ascend and do not exceed
-- its sequence, and at most 200 finished jobs without a pending audit entry remain.
pub create_lem :
    (log_path : ℕ → String) (operation started_by : String) (argv : List String) (now : String)
    (table : JobTable)
    → IsNumbered table.jobs table.sequence
    → let made = create log_path operation started_by argv now table in
      All (λ (j : Job). j.id < made.0.id) table.jobs
      × Memᴰ made.0 made.1.jobs
      × IsNumbered made.1.jobs made.1.sequence
      × (rowcount is_settled made.1.jobs ≤ max_jobs)
unfolding create
create_lem log_path operation started_by argv now table h =
    let i = suc table.sequence in
    let job = queued_job i operation started_by argv (log_path i) now in
    let jobs = table.jobs ++ job ∷ [] in
    (
      fresh table.jobs h,
      select-mem (is_retained jobs) job jobs (last-mem table.jobs job) refl,
      select-IsNumbered (is_retained jobs) jobs i
          (append-IsNumbered table.jobs table.sequence job h refl),
      retained_bound jobs jobs i (append-IsNumbered table.jobs table.sequence job h refl)
          (λ p. omega arith),
    )
  where
    fresh :
        (js : List Job)
        → IsNumbered js table.sequence
        → All (λ (j : Job). j.id < suc table.sequence) js
    fresh [] n = tt
    fresh (j ∷ js) n = (omega (arith, n.1), fresh js n.2)

-- The finished jobs that are newer than a job.
abbrev pub finished_after : ℕ → List Job → ℕ
finished_after i jobs = length (select (λ (k : Job). ltb i k.id && finished_job k) jobs)

-- A job that waits or runs, whose audit entry is still to be written, or that fewer than 200
-- finished jobs follow.
pub data IsNeeded (jobs : List Job) (j : Job) : Type 0 where
  waits : j.status ≡ queued → IsNeeded jobs j
  runs : j.status ≡ running → IsNeeded jobs j
  owes_entry : (action : String) → j.audit_pending ≡ some action → IsNeeded jobs j
  is_recent : finished_after j.id jobs < 200 → IsNeeded jobs j

newer_finished-append :
    (j : Job) (js : List Job) (k : Job)
    → is_terminal k.status ≡ false
    → newer_finished (js ++ k ∷ []) j ≡ finished_after j.id js
newer_finished-append j [] k h = ground (arith, h)
newer_finished-append j (i ∷ js) k h = ground (arith, newer_finished-append j js k h)

IsNeeded-retained :
    (j : Job) (js : List Job) (k : Job)
    → is_terminal k.status ≡ false
    → IsNeeded js j
    → is_retained (js ++ k ∷ []) j ≡ true
IsNeeded-retained j js k h (waits e) = ground (arith, e)
IsNeeded-retained j js k h (runs e) = ground (arith, e)
IsNeeded-retained j js k h (owes_entry action e) = ground (arith, e)
IsNeeded-retained j js k h (is_recent few) = ground (arith, few, newer_finished-append j js k h)

-- Creating a job removes no job that waits or runs, that has an audit entry to be written,
-- finished or not, or that fewer than 200 finished jobs follow.
pub create-retains :
    (log_path : ℕ → String) (operation started_by : String) (argv : List String) (now : String)
    (table : JobTable) (j : Job)
    → Memᴰ j table.jobs
    → IsNeeded table.jobs j
    → Memᴰ j (create log_path operation started_by argv now table).1.jobs
unfolding create
create-retains log_path operation started_by argv now table j m needed =
    let i = suc table.sequence in
    let job = queued_job i operation started_by argv (log_path i) now in
    let jobs = table.jobs ++ job ∷ [] in
    select-mem (is_retained jobs) j jobs (append-mem j table.jobs job m)
      (IsNeeded-retained j table.jobs job refl needed)
