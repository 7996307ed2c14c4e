-- ===== src/Jobs/Work.antt =====
-- The operations of MemoryJobQueue for the workers and the lifecycle, and the two UPDATEs of the jobs
-- when the private layers of a member are cleared.
use text.Mathlib.Text.{◌==◌ as str_eq}
use qq_violation_bot.Prelude.{
  ℕ, ◌+◌, ◌-◌, ◌*◌, ◌^◌, Bool, true, false, not, ◌&&◌, ◌||◌, Option, none, some, List, [], ◌∷◌,
  String, exists, update, ltb, leb, ◌==◌, if◌then◌else◌,
}
use qq_violation_bot.Jobs.Types.{
  JobType, private_summary, Kind, private, group, pending, running, succeeded, failed, cancelled,
  Scope, Job, Settings, Queue, is_pending, is_running, is_live, same_type, same_scope, owned_by,
}
use qq_violation_bot.Jobs.Queue.{has_id}

abbrev pub ended_by : ℕ → Option ℕ → Bool
ended_by now none = false
ended_by now (some t) = leb t now

abbrev pub is_expired : ℕ → Job → Bool
is_expired now j = is_running j.status && ended_by now j.lease_expires_at

abbrev pub expire_row : Settings → ℕ → Job → Job
expire_row s now j = record j {
  status = if leb s.max_attempts j.attempts then failed else pending;
  next_run_at = now;
  lease_owner = none;
  lease_expires_at = none;
  error_code = if leb s.max_attempts j.attempts then "lease_expired" else "";
  updated_at = now;
}

unfoldable pub recover_expired_leases : Queue → ℕ → Queue
recover_expired_leases q now = record q {
  jobs = update (is_expired now) (expire_row q.settings now) q.jobs;
}

abbrev pub running_scopes : List Job → List Scope
running_scopes [] = []
running_scopes (j ∷ js) =
    if is_running j.status then j.scope ∷ running_scopes js else running_scopes js

abbrev pub has_scope : Scope → List Scope → Bool
has_scope k [] = false
has_scope k (l ∷ ls) = same_scope k l || has_scope k ls

abbrev pub claim_row : Settings → String → ℕ → Job → Job
claim_row s worker now j = record j {
  status = running;
  attempts = j.attempts + 1;
  lease_owner = some worker;
  lease_expires_at = some (now + s.lease_seconds);
  claim_version = j.claim_version + 1;
  error_code = "";
  updated_at = now;
}

-- status='pending' AND attempts<?, and `str(row["job_type"]) in allowed`.
abbrev pub is_offered : Settings → (JobType → Bool) → Job → Bool
is_offered s allowed j =
    is_pending j.status && (ltb j.attempts s.max_attempts && allowed j.job_type)

-- The loop over the rows: `left` is what the limit leaves, `busy` is running_keys.
unfoldable pub claim_rows :
    Settings
    → String
    → ℕ
    → (JobType → Bool)
    → ℕ
    → List Scope
    → List Scope
    → List Job
    → List Job × List ℕ
claim_rows s worker now allowed left busy seen [] = ([], [])
claim_rows s worker now allowed left busy seen (j ∷ js) =
    let skip = claim_rows s worker now allowed left busy seen js in
    let pass = claim_rows s worker now allowed left busy (j.scope ∷ seen) js in
    let take = claim_rows s worker now allowed (left - 1) (j.scope ∷ busy) (j.scope ∷ seen) js in
    if left == 0
    then (j ∷ js, [])
    else if not (is_offered s allowed j) || has_scope j.scope seen
    then (j ∷ skip.0, skip.1)
    else if has_scope j.scope busy || ltb now j.next_run_at
    then (j ∷ pass.0, pass.1)
    else (claim_row s worker now j ∷ take.0, j.id ∷ take.1)

-- The ids of the jobs that it returns; a limit of none and a blank worker are ValueErrors.
unfoldable pub claim_jobs : Queue → String → ℕ → ℕ → (JobType → Bool) → List ℕ × Queue
claim_jobs q worker now limit allowed =
    let r = claim_rows q.settings worker now allowed limit (running_scopes q.jobs) [] q.jobs in
    (r.1, record q { jobs = r.0 })

-- WHERE id=? AND status='running' AND lease_owner=? AND claim_version=?
abbrev pub holds_job : Job → String → Job → Bool
holds_job job worker j =
    has_id job.id j
    && (is_running j.status
        && (owned_by worker j.lease_owner && j.claim_version == job.claim_version))

pub data Outcome : Type 0 where
  success : Outcome
  failure : String → Bool → Outcome

-- backoff_base_seconds * 2 ** (attempts - 1)
unfoldable pub backoff : Settings → ℕ → ℕ
backoff s n = s.backoff_base_seconds * 2 ^ (n - 1)

abbrev pub finish_row : Settings → Job → Outcome → ℕ → Job → Job
finish_row s job success now j = record j {
  status = succeeded;
  next_run_at = now;
  lease_owner = none;
  lease_expires_at = none;
  error_code = "";
  updated_at = now;
}
finish_row s job (failure code retryable) now j =
    let again = retryable && ltb job.attempts s.max_attempts in
    record j {
      status = if again then pending else failed;
      next_run_at = if again then now + backoff s job.attempts else now;
      lease_owner = none;
      lease_expires_at = none;
      error_code = code;
      updated_at = now;
    }

-- The rows after an UPDATE by the holder of a job, and whether there was such a row.
abbrev pub by_holder : (Job → Job) → Queue → Job → String → Bool × Queue
by_holder f q job worker = (
  exists (holds_job job worker) q.jobs,
  record q { jobs = update (holds_job job worker) f q.jobs },
)

-- `job` is the row that the worker was given; the code of a failure is the cleaned one.
unfoldable pub finish_job : Queue → Job → String → Outcome → ℕ → Bool × Queue
finish_job q job worker outcome now = by_holder (finish_row q.settings job outcome now) q job worker

abbrev pub release_row : ℕ → Job → Job
release_row now j = record j {
  status = pending;
  next_run_at = now;
  lease_owner = none;
  lease_expires_at = none;
  error_code = "";
  updated_at = now;
}

unfoldable pub release_owned : Queue → String → ℕ → Queue
release_owned q worker now = record q {
  jobs =
      update (λ (j : Job). is_running j.status && owned_by worker j.lease_owner) (release_row now)
        q.jobs;
}

abbrev pub defer_row : Settings → Job → ℕ → Job → Job
defer_row s job now j =
    let exhausted = leb s.max_attempts job.attempts in
    record j {
      status = if exhausted then failed else pending;
      next_run_at = if exhausted then now else now + backoff s job.attempts;
      lease_owner = none;
      lease_expires_at = none;
      error_code = if exhausted then "no_domain_write" else "";
      updated_at = now;
    }

unfoldable pub defer_job : Queue → Job → String → ℕ → Bool × Queue
defer_job q job worker now = by_holder (defer_row q.settings job now) q job worker

abbrev pub renew_row : Settings → ℕ → Job → Job
renew_row s now j = record j { lease_expires_at = some (now + s.lease_seconds); updated_at = now }

unfoldable pub renew_job : Queue → Job → String → ℕ → Bool × Queue
renew_job q job worker now = by_holder (renew_row q.settings now) q job worker

abbrev pub continue_row : ℕ → Job → Job
continue_row now j = record j {
  status = pending;
  attempts = j.attempts - 1;
  next_run_at = now;
  lease_owner = none;
  lease_expires_at = none;
  updated_at = now;
}

unfoldable pub continue_job : Queue → Job → String → ℕ → Bool × Queue
continue_job q job worker now = by_holder (continue_row now) q job worker

-- clear_private_layers of private_memory/store.py, as to the jobs.
abbrev pub is_private : Kind → Bool
is_private private = true
is_private group = false

abbrev pub is_summary_of : String → Job → Bool
is_summary_of user j =
    is_private j.scope.conversation_kind
    && (str_eq j.scope.user_id user && (same_type j.job_type private_summary && is_live j.status))

abbrev pub cancel_row : ℕ → Job → Job
cancel_row now j = record j {
  status = cancelled;
  lease_owner = none;
  lease_expires_at = none;
  error_code = "";
  updated_at = now;
}

unfoldable pub cancel_summaries : Queue → String → ℕ → Queue
cancel_summaries q user now = record q {
  jobs = update (is_summary_of user) (cancel_row now) q.jobs;
}

-- _apply_clear of memory_governance/service.py, as to the jobs.
abbrev pub clear_row : ℕ → Job → Job
clear_row now j = record j {
  status = cancelled;
  lease_owner = none;
  lease_expires_at = none;
  updated_at = now;
}

unfoldable pub clear_summaries : Queue → String → ℕ → Queue
clear_summaries q user now = record q { jobs = update (is_summary_of user) (clear_row now) q.jobs }
