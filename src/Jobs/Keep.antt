-- ===== src/Jobs/Keep.antt =====
-- The operations that keep a queue well-formed.
use qq_violation_bot.Prelude.{
  ℕ, ◌≡◌, refl, inl, inr, false, ◌&&◌, List, [], ◌∷◌, ◌++◌, String, arith, All-append, select, ltb,
  if-ind, Option-cases,
}
use qq_violation_bot.Jobs.Types.{JobType, Scope, Job, Queue, is_running}
use qq_violation_bot.Jobs.Queue.{
  new_job, has_id, merge_row, merge_job, insert_job, place_job, is_same_input, takes_more,
  is_merged,
}
use qq_violation_bot.Jobs.Work.{
  expire_row, recover_expired_leases, is_expired, holds_job, Outcome, success, failure, finish_row,
  finish_job, defer_job, renew_job, continue_job, release_row, release_owned, defer_row, renew_row,
  continue_row, cancel_row, cancel_summaries, clear_row, clear_summaries, is_summary_of,
}
use qq_violation_bot.Jobs.Valid.{
  Clear, IsSound, IsValid, IsValid-update, JobStep-stopped, OneRunning,
}

pub IsValid-recover : (q : Queue) (now : ℕ) → IsValid q → IsValid (recover_expired_leases q now)
unfolding recover_expired_leases
IsValid-recover q now v =
    IsValid-update q (is_expired now) (expire_row q.settings now)
      (λ j e. JobStep-stopped _ j _ refl (ground arith) refl (omega arith)) v

pub IsValid-finish_job :
    (q : Queue) (job : Job) (worker : String) (o : Outcome) (now : ℕ)
    → IsValid q
    → IsValid (finish_job q job worker o now).1
unfolding finish_job
IsValid-finish_job q job worker success now v =
    IsValid-update q (holds_job job worker) (finish_row q.settings job success now)
      (λ j e. JobStep-stopped _ j _ refl refl refl (omega arith)) v
IsValid-finish_job q job worker (failure code retryable) now v =
    IsValid-update q (holds_job job worker) (finish_row q.settings job (failure code retryable) now)
      (λ j e. JobStep-stopped _ j _ refl (ground arith) refl (omega arith)) v

pub IsValid-release_owned :
    (q : Queue) (worker : String) (now : ℕ) → IsValid q → IsValid (release_owned q worker now)
unfolding release_owned
IsValid-release_owned q worker now v =
    IsValid-update q _ (release_row now) (λ j e. JobStep-stopped _ j _ refl refl refl (omega arith))
      v

pub IsValid-defer_job :
    (q : Queue) (job : Job) (worker : String) (now : ℕ)
    → IsValid q
    → IsValid (defer_job q job worker now).1
unfolding defer_job
IsValid-defer_job q job worker now v =
    IsValid-update q (holds_job job worker) (defer_row q.settings job now)
      (λ j e. JobStep-stopped _ j _ refl (ground arith) refl (omega arith)) v

pub IsValid-renew_job :
    (q : Queue) (job : Job) (worker : String) (now : ℕ)
    → IsValid q
    → IsValid (renew_job q job worker now).1
unfolding renew_job
IsValid-renew_job q job worker now v =
    IsValid-update q (holds_job job worker) (renew_row q.settings now)
      (λ j e. record {
        scope = refl;
        runs = λ h. h;
        sound = λ w. record { bound = w.bound; owner = w.owner; tried = w.tried };
      })
      v

pub IsValid-continue_job :
    (q : Queue) (job : Job) (worker : String) (now : ℕ)
    → IsValid q
    → IsValid (continue_job q job worker now).1
unfolding continue_job
IsValid-continue_job q job worker now v =
    IsValid-update q (holds_job job worker) (continue_row now)
      (λ j e. JobStep-stopped _ j _ refl refl refl (omega arith)) v

pub IsValid-cancel_summaries :
    (q : Queue) (user : String) (now : ℕ) → IsValid q → IsValid (cancel_summaries q user now)
unfolding cancel_summaries
IsValid-cancel_summaries q user now v =
    IsValid-update q (is_summary_of user) (cancel_row now)
      (λ j e. JobStep-stopped _ j _ refl refl refl (omega arith)) v

OneRunning-append :
    (js : List Job) (j : Job)
    → is_running j.status ≡ false
    → OneRunning js
    → OneRunning (js ++ j ∷ [])
OneRunning-append [] j idle v = ((λ _. tt), tt)
OneRunning-append (k ∷ js) j idle v = (
  (λ runs. All-append (Clear k.scope) js j (v.0 runs) (λ h. absurd (cc))),
  OneRunning-append js j idle v.1,
)

IsValid-insert_job :
    (q : Queue) (type : JobType) (scope : Scope) (input version now : ℕ)
    → IsValid q
    → IsValid (insert_job q type scope input version now).1
unfolding new_job
IsValid-insert_job q type scope input version now v = record {
  sound =
      All-append (IsSound q.settings.max_attempts) q.jobs _ v.sound
        (record { bound = omega arith; owner = refl; tried = λ h. absurd (cc) });
  apart = OneRunning-append q.jobs _ refl v.apart;
}

IsValid-merge_job :
    (q : Queue) (j : Job) (type : JobType) (input now : ℕ)
    → IsValid q
    → IsValid (merge_job q j type input now).1
IsValid-merge_job q j type input now v =
    if-ind (λ (r : ℕ × Queue). IsValid r.1) (ltb j.input_through_id input)
      (λ _.
        IsValid-update q (has_id j.id) (merge_row q.settings type input now)
          (λ j e. record {
            scope = refl;
            runs = λ h. h;
            sound = λ w. record { bound = w.bound; owner = w.owner; tried = w.tried };
          })
          v)
      (λ _. v)

pub IsValid-place_job :
    (q : Queue) (type : JobType) (scope : Scope) (input version now : ℕ)
    → IsValid q
    → IsValid (place_job q type scope input version now).1
unfolding place_job
IsValid-place_job q type scope input version now v =
    elim (Option-cases (select (is_same_input type scope input) q.jobs)) [
      | inr (same, e) ↦ rw (e, place_job) v
      | inl none_ ↦
          rw (none_, place_job)
            (elim (Option-cases
              (select (λ (j : Job). is_merged type && takes_more type scope j) q.jobs)) [
                | inr (j, e) ↦ rw (e, place_job) (IsValid-merge_job q j type input now v)
                | inl new ↦
                    rw (new, place_job) (IsValid-insert_job q type scope input version now v)
              ])
    ]

pub IsValid-clear_summaries :
    (q : Queue) (user : String) (now : ℕ) → IsValid q → IsValid (clear_summaries q user now)
unfolding clear_summaries
IsValid-clear_summaries q user now v =
    IsValid-update q (is_summary_of user) (clear_row now)
      (λ j e. JobStep-stopped _ j _ refl refl refl (omega arith)) v
