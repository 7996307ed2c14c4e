-- ===== src/Policy/Resolve/Keep.antt =====
-- A confirmed review keeps the scope well-formed.
use text.Mathlib.Text.{◌==◌ as str_eq}
use qq_violation_bot.Prelude.{
  ℕ, suc, refl, true, not, ◌||◌, Option, none, some, List, [], ◌∷◌, String, Result, ok, raise,
  arith, leb, if-ind, Option-ind, subst,
}
use qq_violation_bot.Policy.Types.{
  Db, Policy, Key, Pending, PolicyOutcome, ViolationRecord, StatusJob, RecoveryMode,
  terminal_status, replay_review, is_terminal, action_eq,
}
use qq_violation_bot.Policy.Count.{all_records, sync_count_state}
use qq_violation_bot.Policy.Events.{
  find_event, insert_event, ensure_policy_state, update_policy, resolve_pending_actions,
}
use qq_violation_bot.Policy.Cycles.{active_cycle}
use qq_violation_bot.Policy.Settle.Total.{settle_due_cycles-total}
use qq_violation_bot.Policy.Manual.{is_blank}
use qq_violation_bot.Policy.Records.{is_none_severity, is_unknown}
use qq_violation_bot.Policy.Review.{is_future}
use qq_violation_bot.Policy.Invariant.{
  IsValid, SameCore, SameCore-trans, IsValidFrom-SameCore, IsIdle-IsValidFrom, IsValidFrom-weaken,
  SameCore-update_policy,
}
use qq_violation_bot.Policy.Invariant.Keep.{
  SameCore-refl, SameCore-insert_event, SameCore-ensure, SameCore-resolve, SameCore-sync,
  IsIdle-set_no_cycle, IsIdle-cancel_active_cycle, IsValidFrom-start_cycle,
}
use qq_violation_bot.Policy.Accept.{
  accepted_record, accept_records, accepted_job, accept_job, accept_jobs, review_done,
  write_checkpoint,
}
use qq_violation_bot.Policy.Resolve.{
  ReviewError, out_of_rounds, is_known_mode, keeps, reviews_of, only_review, effective_records,
  waiting_jobs, blocks_keeping, record_error, job_error, restarted_type, kept_sequence, is_none,
  recover_cycle, resolved_event, finished_review, accept_review, resolve_policy_review,
}

SameCore-accept_records :
    (watermark at : ℕ) (rs : List ViolationRecord) (db : Db)
    → SameCore db (accept_records db watermark at rs)
unfolding accept_records
SameCore-accept_records watermark at [] db = SameCore-refl db
SameCore-accept_records watermark at (r ∷ rs) db =
    if-ind (SameCore db) (is_none_severity r.severity || leb r.id watermark)
      (λ _. SameCore-accept_records watermark at rs db)
      (λ _.
        SameCore-trans (SameCore-insert_event db (accepted_record r at))
          (SameCore-accept_records watermark at rs (insert_event db (accepted_record r at)).2))

SameCore-accept_job : (db : Db) (j : StatusJob) (at : ℕ) → SameCore db (accept_job db j at)
unfolding accept_job
SameCore-accept_job db j at =
    let s = SameCore-insert_event db (accepted_job j at) in
    record { ops = s.ops; pointer = s.pointer; cycles = s.cycles; next = s.next }

SameCore-accept_jobs : (at : ℕ) (js : List StatusJob) (db : Db) → SameCore db (accept_jobs db at js)
unfolding accept_jobs
SameCore-accept_jobs at [] db = SameCore-refl db
SameCore-accept_jobs at (j ∷ js) db =
    SameCore-trans (SameCore-accept_job db j at) (SameCore-accept_jobs at js (accept_job db j at))

-- The recovery returns a well-formed scope, within the rounds of the settlement.
abbrev Recovered : Result ReviewError Db → Type 0
Recovered (ok db) = IsValid db
Recovered (raise err) = ⊥

Recovered-recover_cycle :
    (db : Db) (mode : RecoveryMode) (at e : ℕ) → IsValid db → Recovered (recover_cycle db mode at e)
unfolding recover_cycle
Recovered-recover_cycle db mode at e v =
    if-ind Recovered (is_terminal db.business.status)
      (λ _. IsIdle-IsValidFrom 0 (
        IsIdle-set_no_cycle terminal_status true
          (IsIdle-cancel_active_cycle db "review_terminal_status" v)))
      (λ _.
        if-ind Recovered (not (keeps mode) || is_none (active_cycle db))
          (λ _. IsValidFrom-weaken {t = suc at} (omega arith) (
            IsValidFrom-start_cycle _ (restarted_type db (active_cycle db)) at e
              (kept_sequence (active_cycle db)) 0
              (IsIdle-cancel_active_cycle db "review_restarted" v)))
          (λ _. let (r, e', v', _) = settle_due_cycles-total db at v in rw e' v'))

SameCore-write_checkpoint :
    (db : Db) (e : ℕ) (mode : RecoveryMode) (reason actor : String) (i : ℕ)
    → SameCore db (write_checkpoint db e mode reason actor i)
unfolding write_checkpoint
SameCore-write_checkpoint db e mode reason actor i =
    let s =
      SameCore-trans (SameCore-update_policy (review_done e) db (λ p. refl) (λ p. refl))
        (SameCore-ensure (update_policy (review_done e) db)) in
    record { ops = s.ops; pointer = s.pointer; cycles = s.cycles; next = s.next }

-- A review that returns leaves a well-formed scope, and the rounds are enough.
abbrev pub Reviewed : Result ReviewError (PolicyOutcome × Db) → Type 0
Reviewed (ok r) = IsValid r.1
Reviewed (raise out_of_rounds) = ⊥
Reviewed (raise _) = Unit

Reviewed-finished :
    (r : Result ReviewError Db) (e : ℕ) (mode : RecoveryMode) (reason actor : String) (i : ℕ)
    → Recovered r
    → Reviewed (finished_review r e mode reason actor i)
Reviewed-finished (ok db) e mode reason actor i v =
    IsValidFrom-SameCore (SameCore-write_checkpoint db e mode reason actor i) v
Reviewed-finished (raise err) e mode reason actor i v = absurd v

Reviewed-accept_review :
    (db : Db) (p : Pending) (policy : Policy) (mode : RecoveryMode) (at : ℕ) (reason actor : String)
    (key : Key) (i : ℕ)
    → IsValid db
    → Reviewed (accept_review db p policy mode at reason actor key i)
unfolding accept_review
Reviewed-accept_review db p policy mode at reason actor key i v =
    let (e, _, db₁) = insert_event db (resolved_event p mode at reason actor key i) in
    let db₂ =
      accept_records db₁ policy.baseline_record_watermark at (effective_records db.records) in
    let db₃ = accept_jobs db₂ at (waiting_jobs db.jobs) in
    let db₄ = resolve_pending_actions db₃ e (action_eq replay_review) in
    let same : SameCore db (sync_count_state db₄ all_records) =
      SameCore-trans (SameCore-insert_event db (resolved_event p mode at reason actor key i)) (
        SameCore-trans
          (SameCore-accept_records policy.baseline_record_watermark at
            (effective_records db.records) db₁)
          (SameCore-trans (SameCore-accept_jobs at (waiting_jobs db.jobs) db₂) (
            SameCore-trans (SameCore-resolve db₃ e (action_eq replay_review))
              (SameCore-sync db₄ all_records)))) in
    Reviewed-finished _ e mode reason actor i (
      Recovered-recover_cycle (sync_count_state db₄ all_records) mode at e
        (IsValidFrom-SameCore same v))

abbrev Complaint : Option ReviewError → Type 0
Complaint none = Unit
Complaint (some err) = Reviewed (raise err)

Complaint-record_error : (at : ℕ) (rs : List ViolationRecord) → Complaint (record_error at rs)
Complaint-record_error at [] = tt
Complaint-record_error at (r ∷ rs) =
    if-ind Complaint (is_future r.violation_time at) (λ _. tt)
      (λ _. if-ind Complaint (is_unknown r.severity) (λ _. tt) (λ _. Complaint-record_error at rs))

Complaint-job_error : (at : ℕ) (js : List StatusJob) → Complaint (job_error at js)
Complaint-job_error at [] = tt
Complaint-job_error at (j ∷ js) =
    if-ind Complaint (is_future j.effective_at at) (λ _. tt) (λ _. Complaint-job_error at js)

-- On a well-formed scope, resolve_policy_review raises one of its ValueErrors or returns, and then the
-- scope is well-formed; its settlement has rounds enough.
pub resolve_policy_review-Reviewed :
    (fingerprint : Db → String) (db : Db) (i : ℕ) (mode : RecoveryMode) (expected : String) (at : ℕ)
    (reason actor : String) (key : Key)
    → IsValid db
    → Reviewed (resolve_policy_review fingerprint db i mode expected at reason actor key)
unfolding resolve_policy_review
resolve_policy_review-Reviewed fingerprint db i mode expected at reason actor key v =
    let (policy, db₁) = ensure_policy_state db in
    let v₁ = IsValidFrom-SameCore (SameCore-ensure db) v in
    Option-ind Reviewed (find_event db key) _ _
      (λ new.
        if-ind Reviewed (not (is_known_mode mode) || (is_blank reason || is_blank actor)) (λ _. tt)
          (λ _.
            Option-ind Reviewed (only_review (reviews_of db.pendings) i) _ _ (λ _. tt)
              (λ p _.
                if-ind Reviewed (str_eq expected "" || not (str_eq expected (fingerprint db)))
                  (λ _. tt)
                  (λ _.
                    if-ind Reviewed (blocks_keeping db₁ mode p) (λ _. tt)
                      (λ _.
                        Option-ind Reviewed (record_error at (effective_records db₁.records)) _ _
                          (λ _.
                            Option-ind Reviewed (job_error at (waiting_jobs db₁.jobs)) _ _
                              (λ _.
                                Reviewed-accept_review db₁ p policy mode at reason actor key i v₁)
                              (λ err e.
                                subst Complaint e (Complaint-job_error at (waiting_jobs db₁.jobs))))
                          (λ err e.
                            subst Complaint e
                              (Complaint-record_error at (effective_records db₁.records))))))))
      (λ old _. v)
