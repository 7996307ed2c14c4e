-- ===== src/Jobs/Forever.antt =====
-- Whatever happens to the queue, a stuck job is stuck.
use qq_violation_bot.Prelude.{
  ℕ, ◌≤◌, ◌<◌, ◌≡◌, refl, subst, ◌∙◌, Bool, true, ◌&&◌, String, arith, All, All-update, exists,
}
use qq_violation_bot.Jobs.Types.{Job, Queue, is_running, owned_by}
use qq_violation_bot.Jobs.Queue.{has_id}
use qq_violation_bot.Jobs.Work.{
  Outcome, success, failure, recover_expired_leases, is_expired, expire_row, holds_job, finish_row,
  finish_job, release_row, release_owned, defer_row, defer_job, renew_row, renew_job, continue_row,
  continue_job, is_summary_of, cancel_row, cancel_summaries, clear_row, clear_summaries,
}
use qq_violation_bot.Jobs.Steps.{
  Step, intake_set, enqueued, recovered, claimed, finished, released, deferred, renewed, continued,
  forgotten, cleared, Run, rest, more, AfterOk, AfterOk-enqueue_job,
}
use qq_violation_bot.Jobs.Stuck.{
  IsStuck, IsStuck-claim_jobs, IsStuck-place_job, IsStuck-running, IsStuck-update, Spent,
  SpentStep-running, exists-update,
}

abbrev is_held_by : String → Job → Bool
is_held_by worker j = is_running j.status && owned_by worker j.lease_owner

IsStuck-finish_job :
    (limit i : ℕ) (q : Queue) (job : Job) (worker : String) (o : Outcome) (now : ℕ)
    → IsStuck limit i q
    → IsStuck limit i (finish_job q job worker o now).1
unfolding finish_job
IsStuck-finish_job limit i q job worker success now v =
    IsStuck-running limit i q (holds_job job worker) (finish_row q.settings job success now)
      (λ j e. ground (arith, e)) (λ j. refl) v
IsStuck-finish_job limit i q job worker (failure code retryable) now v =
    IsStuck-running limit i q (holds_job job worker)
      (finish_row q.settings job (failure code retryable) now) (λ j e. ground (arith, e))
      (λ j. refl) v

module _ (valid_user valid_persona : String → Bool) where
  IsStuck-Step :
      (limit i : ℕ) {q q' : Queue}
      → Step valid_user valid_persona q q'
      → IsStuck limit i q
      → IsStuck limit i q'
  unfolding recover_expired_leases release_owned defer_job renew_job continue_job cancel_summaries
      clear_summaries
  IsStuck-Step limit i (intake_set open_) v = record {
    limit_kept = v.limit_kept;
    old = v.old;
    present = v.present;
    spent = v.spent;
  }
  IsStuck-Step limit i {q} (enqueued type scope input version now k e) v =
      subst (AfterOk valid_user valid_persona (IsStuck limit i)) e (
        AfterOk-enqueue_job valid_user valid_persona (IsStuck limit i) q type scope input version
          now (IsStuck-place_job limit i q type scope input version now v))
  IsStuck-Step limit i {q} (recovered now) v =
      IsStuck-running limit i q (is_expired now) (expire_row q.settings now)
        (λ j e. ground (arith, e)) (λ j. refl) v
  IsStuck-Step limit i {q} (claimed worker now n allowed) v =
      IsStuck-claim_jobs limit i q worker now n allowed v
  IsStuck-Step limit i {q} (finished job worker outcome now) v =
      IsStuck-finish_job limit i q job worker outcome now v
  IsStuck-Step limit i {q} (released worker now) v =
      IsStuck-running limit i q (is_held_by worker) (release_row now) (λ j e. ground (arith, e))
        (λ j. refl) v
  IsStuck-Step limit i {q} (deferred job worker now) v =
      IsStuck-running limit i q (holds_job job worker) (defer_row q.settings job now)
        (λ j e. ground (arith, e)) (λ j. refl) v
  IsStuck-Step limit i {q} (renewed job worker now) v =
      IsStuck-running limit i q (holds_job job worker) (renew_row q.settings now)
        (λ j e. ground (arith, e)) (λ j. refl) v
  IsStuck-Step limit i {q} (continued job worker now) v =
      IsStuck-running limit i q (holds_job job worker) (continue_row now) (λ j e. ground (arith, e))
        (λ j. refl) v
  IsStuck-Step limit i {q} (forgotten user now) v =
      IsStuck-update limit i q (is_summary_of user) (cancel_row now)
        (λ j e. record { id = refl; spent = λ idle spent. (refl, spent) }) v
  IsStuck-Step limit i {q} (cleared user now) v =
      IsStuck-update limit i q (is_summary_of user) (clear_row now)
        (λ j e. record { id = refl; spent = λ idle spent. (refl, spent) }) v

  IsStuck-Run :
      (limit i : ℕ) {q q' : Queue}
      → Run valid_user valid_persona q q'
      → IsStuck limit i q
      → IsStuck limit i q'
  IsStuck-Run limit i rest v = v
  IsStuck-Run limit i (more r s) v = IsStuck-Step limit i s (IsStuck-Run limit i r v)

-- The only row of the job runs for the worker, on its last attempt.
pub record OnLastTry (i : ℕ) (worker : String) (q : Queue) : Type 0 where
  pub old : i < q.next_id
  pub present : exists (has_id i) q.jobs ≡ true
  pub last :
      All
        (λ (j : Job).
          has_id i j ≡ true → (is_held_by worker j ≡ true) × q.settings.max_attempts ≤ j.attempts)
        q.jobs

IsStuck-release_owned :
    (i : ℕ) (worker : String) (now : ℕ) (q : Queue)
    → OnLastTry i worker q
    → IsStuck q.settings.max_attempts i (release_owned q worker now)
unfolding release_owned
IsStuck-release_owned i worker now q v = record {
  limit_kept = refl;
  old = v.old;
  present =
      exists-update 0 i (is_held_by worker) (release_row now)
        (λ j e. SpentStep-running 0 j (release_row now j) (ground (arith, e)) refl) q.jobs
      ∙ v.present;
  spent =
      All-update
        (λ (j : Job).
          has_id i j ≡ true → (is_held_by worker j ≡ true) × q.settings.max_attempts ≤ j.attempts)
        (Spent q.settings.max_attempts i) (is_held_by worker) (release_row now) q.jobs
        (λ j h same. ground (arith, h, same)) v.last;
}

-- When a worker that stops releases a job on its last attempt, the job is in every later queue, and
-- there it waits, or is cancelled, with no attempt left: it never runs, succeeds or fails.
pub released-OnLastTry-IsStuck :
    (valid_user valid_persona : String → Bool) (i : ℕ) (worker : String) (now : ℕ) {q q' : Queue}
    → OnLastTry i worker q
    → Run valid_user valid_persona (release_owned q worker now) q'
    → IsStuck q.settings.max_attempts i q'
released-OnLastTry-IsStuck valid_user valid_persona i worker now {q} v r =
    IsStuck-Run valid_user valid_persona q.settings.max_attempts i r
      (IsStuck-release_owned i worker now q v)
