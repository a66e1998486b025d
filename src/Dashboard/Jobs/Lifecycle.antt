-- ===== src/Dashboard/Jobs/Lifecycle.antt =====
-- The life of a job: what any sequence of calls of the store keeps true.
use cvebeacon.Prelude.{
  ℕ, suc, String, ◌≡◌, ◌⊎◌, inl, inr, refl, sym, subst, Bool, true, Option, none, some, List, [],
  ◌∷◌, ◌++◌, not, ◌==◌, All, arith, if◌then◌else◌, is_some, select, Bool-cases,
}
use cvebeacon.Dashboard.Jobs.{
  JobStatus, ExitCode, queued, running, succeeded, failed, cancelled, Job, JobTable, is_active,
  is_queued, is_terminal, is_waiting, change_where, queued_job, is_retained, create,
  fail_interrupted, mark_running, cancel_queued, request_cancel, finish, clear_audit, ended_job,
  interrupted_job, cancelled_job, asked_job,
}

-- What the columns of a job say of its status: an active job has no end, result or audit entry, a
-- finished one has an end, and one has a start exactly from when it runs.
abbrev pub IsSound : Job → Type 0
IsSound j =
    ((is_active j.status ≡ true)
      × (j.ended_at ≡ none)
      × (j.exit_code ≡ none)
      × (j.audit_pending ≡ none)
      × (is_some j.started_at ≡ not (is_queued j.status)))
    ⊎ (is_terminal j.status ≡ true) × (is_some j.ended_at ≡ true)

module _ (test : Job → Bool) (change : Job → Job)
    (keep : (j : Job) → test j ≡ true → IsSound j → IsSound (change j)) where
  change_where-IsSound :
      (jobs : List Job) → All IsSound jobs → All IsSound (change_where test change jobs)
  change_where-IsSound [] h = tt
  change_where-IsSound (j ∷ js) h = elim (Bool-cases (test j)) [
    | inl e ↦ (
      subst (λ b. IsSound (if b then change j else j)) (sym e) (keep j e h.0),
      change_where-IsSound js h.1,
    )
    | inr e ↦
        (subst (λ b. IsSound (if b then change j else j)) (sym e) h.0, change_where-IsSound js h.1)
  ]

-- One call of the store, with its arguments and the clock.
pub data Call : Type 0 where
  create_job : (operation started_by : String) → List String → String → Call
  interrupt : String → Call
  start : ℕ → String → Call
  cancel : ℕ → Option String → String → Call
  ask_cancel : ℕ → Option String → Call
  end : ℕ → JobStatus → Option ExitCode → (message audit : Option String) → String → Call
  audited : ℕ → Call

abbrev pub or_same : Option (List Job) → List Job → List Job
or_same none jobs = jobs
or_same (some after) jobs = after

abbrev pub with_jobs : JobTable → List Job → JobTable
with_jobs table jobs = record table { jobs = jobs }

module _ (log_path : ℕ → String) where
  -- The table after a call; a call that raises leaves it as it was.
  pub perform : Call → JobTable → JobTable
  perform (create_job operation started_by argv now) table =
      (create log_path operation started_by argv now table).1
  perform (interrupt now) table = with_jobs table (fail_interrupted now table.jobs).1
  perform (start i now) table = with_jobs table (mark_running i now table.jobs).1
  perform (cancel i actor now) table = with_jobs table (cancel_queued i actor now table.jobs).1
  perform (ask_cancel i actor) table = with_jobs table (request_cancel i actor table.jobs)
  perform (end i status code message audit now) table =
      with_jobs table (or_same (finish i status code message audit now table.jobs) table.jobs)
  perform (audited i) table = with_jobs table (clear_audit i table.jobs)

  pub perform_each : List Call → JobTable → JobTable
  unfolding perform
  perform_each [] table = table
  perform_each (c ∷ calls) table = perform_each calls (perform c table)

  append-IsSound :
      (jobs : List Job) (j : Job) → All IsSound jobs → IsSound j → All IsSound (jobs ++ j ∷ [])
  append-IsSound [] j h k = (k, tt)
  append-IsSound (i ∷ jobs) j h k = (h.0, append-IsSound jobs j h.1 k)

  select-IsSound :
      (p : Job → Bool) (jobs : List Job) → All IsSound jobs → All IsSound (select p jobs)
  select-IsSound p [] h = tt
  select-IsSound p (j ∷ jobs) h = elim (Bool-cases (p j)) [
    | inl e ↦
        subst (λ b. All IsSound (if b then j ∷ select p jobs else select p jobs)) (sym e)
          (h.0, select-IsSound p jobs h.1)
    | inr e ↦
        subst (λ b. All IsSound (if b then j ∷ select p jobs else select p jobs)) (sym e)
          (select-IsSound p jobs h.1)
  ]

  finish-IsSound :
      (i : ℕ) (status : JobStatus) (code : Option ExitCode) (message audit : Option String)
      (now : String) (jobs : List Job)
      → All IsSound jobs
      → All IsSound (or_same (finish i status code message audit now jobs) jobs)
  unfolding finish
  finish-IsSound i queued code message audit now jobs h = h
  finish-IsSound i running code message audit now jobs h = h
  finish-IsSound i succeeded code message audit now jobs h =
      change_where-IsSound (λ j. j.id == i) (ended_job succeeded code message audit now)
        (λ j m s. inr (refl, refl)) jobs h
  finish-IsSound i failed code message audit now jobs h =
      change_where-IsSound (λ j. j.id == i) (ended_job failed code message audit now)
        (λ j m s. inr (refl, refl)) jobs h
  finish-IsSound i cancelled code message audit now jobs h =
      change_where-IsSound (λ j. j.id == i) (ended_job cancelled code message audit now)
        (λ j m s. inr (refl, refl)) jobs h

  perform-IsSound :
      (c : Call) (table : JobTable) → All IsSound table.jobs → All IsSound (perform c table).jobs
  unfolding perform create fail_interrupted mark_running cancel_queued request_cancel clear_audit
  perform-IsSound (create_job operation started_by argv now) table h =
      let i = suc table.sequence in
      let job = queued_job i operation started_by argv (log_path i) now in
      let jobs = table.jobs ++ job ∷ [] in
      select-IsSound (is_retained jobs) jobs
        (append-IsSound table.jobs job h (inl (refl, refl, refl, refl, refl)))
  perform-IsSound (interrupt now) table h =
      change_where-IsSound (λ j. is_active j.status) (interrupted_job now)
        (λ j m s. inr (refl, refl)) table.jobs h
  perform-IsSound (start i now) table h =
      change_where-IsSound (is_waiting i)
        (λ j. record j { status = running; started_at = some now }) (λ j m s. ground arith)
        table.jobs h
  perform-IsSound (cancel i actor now) table h =
      change_where-IsSound (is_waiting i) (cancelled_job actor now) (λ j m s. inr (refl, refl))
        table.jobs h
  perform-IsSound (ask_cancel i actor) table h =
      change_where-IsSound (λ j. j.id == i) (asked_job actor) (λ j m s. s) table.jobs h
  perform-IsSound (end i status code message audit now) table h =
      finish-IsSound i status code message audit now table.jobs h
  perform-IsSound (audited i) table h =
      change_where-IsSound (λ j. j.id == i) (λ j. record j { audit_pending = none })
        (λ j m s. ground arith) table.jobs h

  -- If every job of a table is sound, so is every job after any calls of the store: an active job
  -- has no end, exit code or pending audit entry and has a start unless it is queued, and a
  -- finished one has an end.
  pub perform_each-IsSound :
      (calls : List Call) (table : JobTable)
      → All IsSound table.jobs
      → All IsSound (perform_each calls table).jobs
  unfolding perform_each
  perform_each-IsSound [] table h = h
  perform_each-IsSound (c ∷ calls) table h =
      perform_each-IsSound calls (perform c table) (perform-IsSound c table h)
