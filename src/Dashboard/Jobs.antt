-- ===== src/Dashboard/Jobs.antt =====
-- src/cvebeacon/dashboard_jobs.py: `JobStore`, the table `dashboard_job`. A method is one
-- transaction on the table; the clock is an argument. The removal of log files is not modelled.
pub mod Lifecycle
mod Tests
pub mod Races
pub mod History
use cvebeacon.Prelude.{
  ℕ, suc, ◌+◌, String, ◌≡◌, Bool, true, false, Option, none, some, List, [], ◌∷◌, ◌++◌, ◌&&◌, ◌||◌,
  not, ltb, ◌==◌, if◌then◌else◌, is_some, given, map, length, select, concat,
}

-- JOB_STATUSES
pub data JobStatus : Type 0 where
  queued running succeeded failed cancelled : JobStatus

-- The result of a process: an exit code, or the signal that ended it, which is stored as negative.
pub data ExitCode : Type 0 where
  exited signalled : ℕ → ExitCode

-- The columns of `dashboard_job`; a text of `_utc_now` is kept as it is.
pub record Job : Type 0 where
  pub id : ℕ
  pub operation : String
  pub status : JobStatus
  pub started_by : String
  pub created_at : String
  pub started_at : Option String
  pub ended_at : Option String
  pub exit_code : Option ExitCode
  pub cancel_requested : Bool
  pub log_path : String
  pub message : Option String
  pub argv : List String
  pub audit_pending : Option String
  pub cancelled_by : Option String

-- The rows, and the last identifier that AUTOINCREMENT gave.
pub record JobTable : Type 0 where
  pub sequence : ℕ
  pub jobs : List Job

-- ACTIVE_STATUSES and `status='queued'`
abbrev pub is_queued : JobStatus → Bool
is_queued queued = true
is_queued _ = false

abbrev pub is_active : JobStatus → Bool
is_active queued = true
is_active running = true
is_active _ = false

-- TERMINAL_STATUSES
abbrev pub is_terminal : JobStatus → Bool
is_terminal s = not (is_active s)

abbrev pub status_text : JobStatus → String
status_text queued = "queued"
status_text running = "running"
status_text succeeded = "succeeded"
status_text failed = "failed"
status_text cancelled = "cancelled"

-- `UPDATE ... WHERE`: the number of rows that pass the test, and the rows after the change.
abbrev pub change_where : (Job → Bool) → (Job → Job) → List Job → List Job
change_where test change [] = []
change_where test change (j ∷ js) = (if test j then change j else j) ∷ change_where test change js

abbrev pub rowcount : (Job → Bool) → List Job → ℕ
rowcount test [] = 0
rowcount test (j ∷ js) = (if test j then 1 else 0) + rowcount test js

-- A finished job whose audit entry is written.
abbrev pub is_settled : Job → Bool
is_settled j = is_terminal j.status && not (is_some j.audit_pending)

-- The finished jobs that are newer: a job is among the last MAX_JOBS when there are fewer of them.
abbrev pub newer_finished : List Job → Job → ℕ
newer_finished jobs j = rowcount (λ k. is_terminal k.status && ltb j.id k.id) jobs

abbrev pub max_jobs : ℕ
max_jobs = 200

-- Not deleted by the statement that bounds the history.
abbrev pub is_retained : List Job → Job → Bool
is_retained jobs j = not (is_settled j) || ltb (newer_finished jobs j) max_jobs

abbrev pub queued_job : ℕ → String → String → List String → String → String → Job
queued_job i operation started_by argv path now = record {
  id = i;
  operation = operation;
  status = queued;
  started_by = started_by;
  created_at = now;
  started_at = none;
  ended_at = none;
  exit_code = none;
  cancel_requested = false;
  log_path = path;
  message = none;
  argv = argv;
  audit_pending = none;
  cancelled_by = none;
}

-- `log_path` is the path in the log directory that belongs to an identifier.
unfoldable pub create :
    (ℕ → String) → String → String → List String → String → JobTable → Job × JobTable
create log_path operation started_by argv now table =
    let i = suc table.sequence in
    let job = queued_job i operation started_by argv (log_path i) now in
    let jobs = table.jobs ++ job ∷ [] in
    (job, record { sequence = i; jobs = select (is_retained jobs) jobs })

unfoldable pub active : List Job → List Job
active jobs = select (λ j. is_active j.status) jobs

abbrev pub interrupted_job : String → Job → Job
interrupted_job now j = record j {
  status = failed;
  ended_at = some now;
  message = some "The dashboard stopped before this job finished.";
  audit_pending = some "job_failed";
}

unfoldable pub fail_interrupted : String → List Job → ℕ × List Job
fail_interrupted now jobs = (
  rowcount (λ j. is_active j.status) jobs,
  change_where (λ j. is_active j.status) (interrupted_job now) jobs,
)

abbrev pub is_waiting : ℕ → Job → Bool
is_waiting i j = (j.id == i) && is_queued j.status

unfoldable pub mark_running : ℕ → String → List Job → Bool × List Job
mark_running i now jobs = (
  rowcount (is_waiting i) jobs == 1,
  change_where (is_waiting i) (λ j. record j { status = running; started_at = some now }) jobs,
)

abbrev pub cancelled_job : Option String → String → Job → Job
cancelled_job actor now j = record j {
  cancel_requested = true;
  status = cancelled;
  cancelled_by = actor;
  ended_at = some now;
  message = some "Cancelled before the command started.";
  audit_pending = some "job_cancelled";
}

unfoldable pub cancel_queued : ℕ → Option String → String → List Job → Bool × List Job
cancel_queued i actor now jobs =
    (rowcount (is_waiting i) jobs == 1, change_where (is_waiting i) (cancelled_job actor now) jobs)

abbrev pub asked_job : Option String → Job → Job
asked_job actor j = record j { cancel_requested = true; cancelled_by = actor }

unfoldable pub request_cancel : ℕ → Option String → List Job → List Job
request_cancel i actor jobs = change_where (λ j. j.id == i) (asked_job actor) jobs

-- `audit_action or "job_" + status`
abbrev pub audit_text : Option String → JobStatus → String
audit_text none status = concat ("job_" ∷ status_text status ∷ [])
audit_text (some s) status = if given (some s) then s else concat ("job_" ∷ status_text status ∷ [])

abbrev pub ended_job :
    JobStatus → Option ExitCode → (message audit_action : Option String) → String → Job → Job
ended_job status exit_code message audit_action now j = record j {
  status = status;
  ended_at = some now;
  exit_code = exit_code;
  message = message;
  audit_pending = some (audit_text audit_action status);
}

-- The source raises ValueError on a status that is not terminal, here `none`.
unfoldable pub finish :
    ℕ
    → JobStatus
    → Option ExitCode
    → (message audit_action : Option String) → String
    → List Job
    → Option (List Job)
finish i status exit_code message audit_action now jobs =
    if is_terminal status
    then some
        (change_where (λ j. j.id == i) (ended_job status exit_code message audit_action now) jobs)
    else none

unfoldable pub clear_audit : ℕ → List Job → List Job
clear_audit i jobs = change_where (λ j. j.id == i) (λ j. record j { audit_pending = none }) jobs
