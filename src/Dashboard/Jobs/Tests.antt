-- ===== src/Dashboard/Jobs/Tests.antt =====
-- The theorems on jobs at a concrete table.
use mathlib.Core.List.{Memᴰ}
use cvebeacon.Prelude.{ℕ, String, ◌≡◌, refl, true, none, some, List, [], ◌∷◌, ◌≤◌, ◌<◌, All, arith}
use cvebeacon.Dashboard.Jobs.{
  running, succeeded, Job, JobTable, exited, queued_job, active, rowcount, is_settled, create,
  fail_interrupted, mark_running, max_jobs,
}
use cvebeacon.Dashboard.Jobs.Lifecycle.{
  Call, create_job, interrupt, start, cancel, end, IsSound, perform_each, perform_each-IsSound,
}
use cvebeacon.Dashboard.Jobs.Races.{IsClosed, fail_interrupted_lem}
use cvebeacon.Dashboard.Jobs.History.{create_lem, create-retains, IsNumbered, IsNeeded}

abbrev job_log : ℕ → String
job_log i = "job.log"

abbrev first_job : Job
first_job = queued_job 1 "scan" "ada" [] "job.log" "09:00"

abbrev second_job : Job
second_job = record (queued_job 2 "run" "ada" [] "job.log" "09:01") {
  status = running;
  started_at = some "09:02";
}

abbrev two_jobs : JobTable
two_jobs = record { sequence = 2; jobs = first_job ∷ second_job ∷ [] }

abbrev busy_day : List Call
busy_day =
    create_job "scan" "ada" [] "09:03"
    ∷ start 3 "09:04"
    ∷ cancel 1 none "09:05"
    ∷ end 3 succeeded (some (exited 0)) none none "09:06"
    ∷ interrupt "09:07"
    ∷ []

perform_each-IsSound_example :
    All IsSound (perform_each job_log busy_day (record { sequence = 0; jobs = [] })).jobs
perform_each-IsSound_example =
    perform_each-IsSound job_log busy_day (record { sequence = 0; jobs = [] }) tt

fail_interrupted_lem_example :
    IsClosed two_jobs.jobs (fail_interrupted "09:10" two_jobs.jobs).1
    × (active (fail_interrupted "09:10" two_jobs.jobs).1 ≡ [])
fail_interrupted_lem_example = fail_interrupted_lem "09:10" two_jobs.jobs

create_lem_example :
    let made = create job_log "scan" "ada" [] "09:03" two_jobs in
    All (λ (j : Job). j.id < made.0.id) two_jobs.jobs
    × Memᴰ made.0 made.1.jobs
    × IsNumbered made.1.jobs made.1.sequence
    × (rowcount is_settled made.1.jobs ≤ max_jobs)
create_lem_example =
    create_lem job_log "scan" "ada" [] "09:03" two_jobs
      ((omega arith, tt), omega arith, (tt, omega arith, tt))

-- A queued job starts once.
starts_once : (mark_running 1 "09:10" two_jobs.jobs).0 ≡ true
unfolding mark_running
starts_once = refl

-- A finished job whose audit entry was not written yet.
abbrev third_job : Job
third_job = record (queued_job 3 "run" "ada" [] "job.log" "09:02") {
  status = succeeded;
  ended_at = some "09:03";
  exit_code = some (exited 0);
  audit_pending = some "run_completed";
}

abbrev three_jobs : JobTable
three_jobs = record { sequence = 3; jobs = third_job ∷ [] }

create-retains_example : Memᴰ third_job (create job_log "scan" "ada" [] "09:03" three_jobs).1.jobs
create-retains_example =
    create-retains job_log "scan" "ada" [] "09:03" three_jobs third_job (Memᴰ.head refl)
      (IsNeeded.owes_entry "run_completed" refl)
