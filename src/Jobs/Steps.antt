-- ===== src/Jobs/Steps.antt =====
-- The life of the queue as a step relation: its callers, its workers and the lifecycle in any order.
use qq_violation_bot.Prelude.{ℕ, ◌≡◌, subst, Bool, String, Result, ok, raise, not, if-ind}
use qq_violation_bot.Jobs.Types.{JobType, Scope, Job, Queue}
use qq_violation_bot.Jobs.Queue.{JobError, fits_type, fits_group, place_job, enqueue_job}
use qq_violation_bot.Jobs.Work.{
  Outcome, recover_expired_leases, claim_jobs, finish_job, release_owned, defer_job, renew_job,
  continue_job, cancel_summaries, clear_summaries,
}
use qq_violation_bot.Jobs.Valid.{IsValid}
use qq_violation_bot.Jobs.Claims.{IsValid-claim_jobs}
use qq_violation_bot.Jobs.Keep.{
  IsValid-place_job, IsValid-recover, IsValid-finish_job, IsValid-release_owned, IsValid-defer_job,
  IsValid-renew_job, IsValid-continue_job, IsValid-cancel_summaries, IsValid-clear_summaries,
}

module _ (valid_user valid_persona : String → Bool) where
  pub data Step (q : Queue) : Queue → Type 0 where
    intake_set : (open_ : Bool) → Step q (record q { accepting = open_ })
    enqueued :
        (type : JobType) (scope : Scope) (input version now i : ℕ) {q' : Queue}
        → enqueue_job valid_user valid_persona q type scope input version now ≡ ok (i, q')
        → Step q q'
    recovered : (now : ℕ) → Step q (recover_expired_leases q now)
    claimed :
        (worker : String) (now limit : ℕ) (allowed : JobType → Bool)
        → Step q (claim_jobs q worker now limit allowed).1
    finished :
        (job : Job) (worker : String) (outcome : Outcome) (now : ℕ)
        → Step q (finish_job q job worker outcome now).1
    released : (worker : String) (now : ℕ) → Step q (release_owned q worker now)
    deferred : (job : Job) (worker : String) (now : ℕ) → Step q (defer_job q job worker now).1
    renewed : (job : Job) (worker : String) (now : ℕ) → Step q (renew_job q job worker now).1
    continued : (job : Job) (worker : String) (now : ℕ) → Step q (continue_job q job worker now).1
    forgotten : (user : String) (now : ℕ) → Step q (cancel_summaries q user now)
    cleared : (user : String) (now : ℕ) → Step q (clear_summaries q user now)

  pub data Run (q : Queue) : Queue → Type 0 where
    rest : Run q q
    more : {q' q'' : Queue} → Run q q' → Step q' q'' → Run q q''

  -- What is said of the queue that a successful call leaves.
  abbrev pub AfterOk : (Queue → Type 0) → Result JobError (ℕ × Queue) → Type 0
  AfterOk P (ok r) = P r.1
  AfterOk P (raise e) = Unit

  pub AfterOk-enqueue_job :
      (P : Queue → Type 0) (q : Queue) (type : JobType) (scope : Scope) (input version now : ℕ)
      → P (place_job q type scope input version now).1
      → AfterOk P (enqueue_job valid_user valid_persona q type scope input version now)
  unfolding enqueue_job
  AfterOk-enqueue_job P q type scope input version now v =
      if-ind (AfterOk P) (not q.accepting) (λ _. tt)
        (λ _.
          if-ind (AfterOk P) (not (fits_type type scope.conversation_kind)) (λ _. tt)
            (λ _.
              if-ind (AfterOk P) (not (valid_user scope.user_id)) (λ _. tt)
                (λ _.
                  if-ind (AfterOk P) (not (fits_group scope.conversation_kind scope.group_id))
                    (λ _. tt)
                    (λ _.
                      if-ind (AfterOk P) (not (valid_persona scope.persona_id)) (λ _. tt)
                        (λ _. v)))))

  IsValid-Step : {q q' : Queue} → Step q q' → IsValid q → IsValid q'
  IsValid-Step (intake_set open_) v = record { sound = v.sound; apart = v.apart }
  IsValid-Step {q} (enqueued type scope input version now i e) v = subst (AfterOk IsValid) e (
      AfterOk-enqueue_job IsValid q type scope input version now
        (IsValid-place_job q type scope input version now v))
  IsValid-Step {q} (recovered now) v = IsValid-recover q now v
  IsValid-Step {q} (claimed worker now limit allowed) v =
      IsValid-claim_jobs q worker now limit allowed v
  IsValid-Step {q} (finished job worker outcome now) v =
      IsValid-finish_job q job worker outcome now v
  IsValid-Step {q} (released worker now) v = IsValid-release_owned q worker now v
  IsValid-Step {q} (deferred job worker now) v = IsValid-defer_job q job worker now v
  IsValid-Step {q} (renewed job worker now) v = IsValid-renew_job q job worker now v
  IsValid-Step {q} (continued job worker now) v = IsValid-continue_job q job worker now v
  IsValid-Step {q} (forgotten user now) v = IsValid-cancel_summaries q user now v
  IsValid-Step {q} (cleared user now) v = IsValid-clear_summaries q user now v

  -- Whatever the callers, the workers and the lifecycle do, in any order, a well-formed queue stays
  -- well-formed: no two jobs of one conversation run at the same time, no job has more attempts than
  -- the limit, a job has an owner exactly while it runs, and a job that runs has been counted.
  pub Run-IsValid : {q q' : Queue} → Run q q' → IsValid q → IsValid q'
  Run-IsValid rest v = v
  Run-IsValid (more r s) v = IsValid-Step s (Run-IsValid r v)
