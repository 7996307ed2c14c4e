-- ===== src/Policy/Resolve.antt =====
pub mod Keep
-- resolve_policy_review of deduction_policy.py. The fingerprint of the scope, a SHA-256 of its rows, is
-- an argument.
use text.Mathlib.Text.{◌==◌ as str_eq}
use qq_violation_bot.Prelude.{
  ℕ, Bool, true, false, not, ◌&&◌, ◌||◌, Option, none, some, List, [], ◌∷◌, String, Result, ok,
  raise, exists, select, leb, ◌==◌, if◌then◌else◌,
}
use qq_violation_bot.Policy.Types.{
  Db, Policy, Cycle, CycleType, Event, EventType, Key, Pending, PolicyOutcome, ViolationRecord,
  StatusJob, RecoveryMode, keep_cycle, other_mode, normal, slow, stop, final_warning, mute_recorded,
  mute_duration_unknown, policy_review_resolved, decision_payload, replay_review, terminal_status,
  is_pending, is_terminal, is_last_warning, is_consulted, is_stop, action_eq,
}
use qq_violation_bot.Policy.Count.{all_records, sync_count_state, current_count, is_effective}
use qq_violation_bot.Policy.Events.{
  NewEvent, find_event, insert_event, ensure_policy_state, is_review, resolve_pending_actions,
}
use qq_violation_bot.Policy.Cycles.{active_cycle, set_no_cycle, start_cycle, cancel_active_cycle}
use qq_violation_bot.Policy.Settle.{settle_due_cycles}
use qq_violation_bot.Policy.Manual.{is_blank, outcome}
use qq_violation_bot.Policy.Review.{is_future}
use qq_violation_bot.Policy.Records.{is_unknown}
use qq_violation_bot.Policy.Accept.{accept_records, accept_jobs, write_checkpoint}

-- The ValueErrors; the model's fuel would be the last.
pub data ReviewError : Type 0 where
  bad_arguments wrong_pending changed_scope affected_cycle future_input unknown_duration :
      ReviewError
  out_of_rounds : ReviewError

abbrev pub is_known_mode : RecoveryMode → Bool
is_known_mode other_mode = false
is_known_mode _ = true

abbrev pub keeps : RecoveryMode → Bool
keeps keep_cycle = true
keeps _ = false

-- The pending reviews.
abbrev pub reviews_of : List Pending → List Pending
reviews_of [] = []
reviews_of (p ∷ ps) =
    let rest = reviews_of ps in
    if is_pending p.status && is_review p.action_type then p ∷ rest else rest

-- The one pending review, where it is the replay review of this id.
abbrev pub only_review : List Pending → ℕ → Option Pending
only_review (p ∷ []) i =
    if action_eq p.action_type replay_review && (p.id == i) then some p else none
only_review _ i = none

abbrev pub effective_records : List ViolationRecord → List ViolationRecord
effective_records [] = []
effective_records (r ∷ rs) =
    let rest = effective_records rs in if is_effective r then r ∷ rest else rest

abbrev pub waiting_jobs : List StatusJob → List StatusJob
waiting_jobs [] = []
waiting_jobs (j ∷ js) = let rest = waiting_jobs js in if j.is_applied then rest else j ∷ rest

abbrev pub is_mute_event : EventType → Bool
is_mute_event mute_recorded = true
is_mute_event mute_duration_unknown = true
is_mute_event _ = false

abbrev pub is_source : Option ℕ → ℕ → Bool
is_source none i = false
is_source (some s) i = s == i

abbrev pub source_of : Db → ℕ → Option ℕ
source_of db e = elim (select (λ (x : Event). x.id == e) db.events) [
  | none ↦ none
  | some x ↦ x.source_record_id
]

-- A record of the current cycle that the review is about, or that no event accounts for.
abbrev pub affects : Db → Pending → Cycle → ViolationRecord → Bool
affects db p c r =
    leb c.start_at r.violation_time
    && (is_source (source_of db p.caused_by_event_id) r.id
        || (is_effective r
            && (r.is_mute
                && not (
                    exists
                      (λ (e : Event).
                        is_source e.source_record_id r.id && is_mute_event e.event_type)
                      db.events))))

abbrev pub has_jobs : List StatusJob → Bool
has_jobs [] = false
has_jobs (j ∷ js) = true

abbrev pub blocks_keeping : Db → RecoveryMode → Pending → Bool
blocks_keeping db mode p = elim (active_cycle db) [
  | none ↦ false
  | some c ↦ keeps mode && (exists (affects db p c) db.records || has_jobs (waiting_jobs db.jobs))
]

-- The first complaint about the records, then about the jobs.
abbrev pub record_error : ℕ → List ViolationRecord → Option ReviewError
record_error at [] = none
record_error at (r ∷ rs) =
    if is_future r.violation_time at
    then some future_input
    else if is_unknown r.severity
    then some unknown_duration
    else record_error at rs

abbrev pub job_error : ℕ → List StatusJob → Option ReviewError
job_error at [] = none
job_error at (j ∷ js) = if is_future j.effective_at at then some future_input else job_error at js

abbrev pub was_stop : Option Cycle → Bool
was_stop none = false
was_stop (some c) = is_stop c.cycle_type

abbrev pub restarted_type : Db → Option Cycle → CycleType
restarted_type db c =
    if is_last_warning db.business.status
    then final_warning
    else if was_stop c
    then stop
    else if leb 3 (current_count db.business) || is_consulted db.business.status
    then slow
    else normal

abbrev pub kept_sequence : Option Cycle → ℕ
kept_sequence none = 0
kept_sequence (some c) = c.fixed_sequence

abbrev pub is_none : Option Cycle → Bool
is_none none = true
is_none (some c) = false

abbrev pub settled : Option (ℕ × Db) → Result ReviewError Db
settled none = raise out_of_rounds
settled (some r) = ok r.1

-- The cycle after the review.
unfoldable pub recover_cycle : Db → RecoveryMode → ℕ → ℕ → Result ReviewError Db
recover_cycle db mode at e =
    let c = active_cycle db in
    if is_terminal db.business.status
    then ok (set_no_cycle (cancel_active_cycle db "review_terminal_status") terminal_status true)
    else if not (keeps mode) || is_none c
    then ok
        (start_cycle (cancel_active_cycle db "review_restarted") (restarted_type db c) at e
          (kept_sequence c) 0).1
    else settled (settle_due_cycles db at)

abbrev pub resolved_event : Pending → RecoveryMode → ℕ → String → String → Key → ℕ → NewEvent
resolved_event p mode at reason actor key i = record {
  event_type = policy_review_resolved;
  effective_time = at;
  event_priority = 60;
  source_sequence = i;
  ingest_time = at;
  idempotency_key = key;
  payload = decision_payload reason actor i mode;
  source_record_id = none;
  caused_by_event_id = some p.caused_by_event_id;
  replay_generation = 0;
}

abbrev pub finished_review :
    Result ReviewError Db
    → ℕ
    → RecoveryMode
    → String
    → String
    → ℕ
    → Result ReviewError (PolicyOutcome × Db)
finished_review (raise err) e mode reason actor i = raise err
finished_review (ok db) e mode reason actor i =
    ok (outcome e true, write_checkpoint db e mode reason actor i)

-- From the new event on.
unfoldable pub accept_review :
    Db
    → Pending
    → Policy
    → RecoveryMode
    → ℕ
    → String
    → String
    → Key
    → ℕ
    → Result ReviewError (PolicyOutcome × Db)
accept_review db p policy mode at reason actor key i =
    let records = effective_records db.records in
    let jobs = waiting_jobs db.jobs in
    let (e, _, db₁) = insert_event db (resolved_event p mode at reason actor key i) in
    let db₂ = accept_records db₁ policy.baseline_record_watermark at records in
    let db₃ = accept_jobs db₂ at jobs in
    let db₄ =
      sync_count_state (resolve_pending_actions db₃ e (action_eq replay_review)) all_records in
    finished_review (recover_cycle db₄ mode at e) e mode reason actor i

module _ (fingerprint : Db → String) where
  unfoldable pub resolve_policy_review :
      Db
      → ℕ
      → RecoveryMode
      → String
      → ℕ
      → String
      → String
      → Key
      → Result ReviewError (PolicyOutcome × Db)
  resolve_policy_review db i mode expected at reason actor key = elim (find_event db key) [
    | some old ↦ ok (outcome old.id false, db)
    | none ↦
        if not (is_known_mode mode) || (is_blank reason || is_blank actor)
        then raise bad_arguments
        else elim (only_review (reviews_of db.pendings) i) [
          | none ↦ raise wrong_pending
          | some p ↦
              if str_eq expected "" || not (str_eq expected (fingerprint db))
              then raise changed_scope
              else let (policy, db₁) = ensure_policy_state db in
                if blocks_keeping db₁ mode p
                then raise affected_cycle
                else elim (record_error at (effective_records db₁.records)) [
                  | some err ↦ raise err
                  | none ↦ elim (job_error at (waiting_jobs db₁.jobs)) [
                    | some err ↦ raise err
                    | none ↦ accept_review db₁ p policy mode at reason actor key i
                  ]
                ]
        ]
  ]
