-- ===== src/Policy/Status/Process.antt =====
-- process_status_change of deduction_policy.py. The replay of the scope is an argument, and the
-- reason of a replay review is its text without the checkpoint's id.
use qq_violation_bot.Prelude.{
  ℕ, ◌-◌, ◌<◌, ◌≡◌, Bool, true, false, ◌&&◌, Option, none, some, List, [], ◌∷◌, String, Result, ok,
  raise, exists, leb, ltb, ltb→lt, ◌==◌, ◌⊎◌, inl, inr, refl, Bool-cases, if◌then◌else◌,
}
use qq_violation_bot.Policy.Types.{
  Db, Event, Key, ActionType, Pending, PolicyOutcome, Status, normal_status, consulted,
  last_warning, left, removed, blacklisted, status_changed, status_payload, replay_review,
  event_replay_review, is_pending, action_eq,
}
use qq_violation_bot.Policy.Events.{NewEvent, insert_event, ensure_policy_state}
use qq_violation_bot.Policy.Settle.{settle_due_cycles}
use qq_violation_bot.Policy.Settle.Total.{settle_due_cycles-total}
use qq_violation_bot.Policy.Manual.{outcome}
use qq_violation_bot.Policy.Invariant.{
  IsValid, SameCore-trans, IsValidFrom-SameCore, IsIdle-IsValidFrom,
}
use qq_violation_bot.Policy.Invariant.Keep.{
  SameCore-insert_event, SameCore-ensure, SameCore-create_pending,
}
use qq_violation_bot.Policy.Review.{
  InputError, missing_record, future_time, out_of_fuel, replay_failed, is_future,
  has_later_effective_event, record_policy_review, before_checkpoint,
}
use qq_violation_bot.Policy.Status.{apply_status, IsSettledFor, apply_status-IsSettledFor}
use qq_violation_bot.Policy.Records.{replayed, nothing}

-- event_type='status_changed' AND is_effective=1 AND effective_time<=?
abbrev pub is_earlier_status : ℕ → Event → Bool
is_earlier_status at e = elim e.event_type [
  | status_changed ↦ e.is_effective && leb e.effective_time at
  | _ ↦ false
]

-- ORDER BY effective_time DESC, id DESC LIMIT 1: the ids rise along the log.
unfoldable pub latest_status_event : ℕ → List Event → Option Event
latest_status_event at [] = none
latest_status_event at (e ∷ es) =
    let rest = latest_status_event at es in
    if is_earlier_status at e
    then elim rest [
      | none ↦ some e
      | some d ↦ if ltb d.effective_time e.effective_time then some e else some d
    ]
    else rest

-- The payload's "status", or the status of the row where there is no such event.
unfoldable pub previous_status : Db → ℕ → Status
unfolding latest_status_event
previous_status db at = elim (latest_status_event at db.events) [
  | none ↦ db.business.status
  | some e ↦ elim e.payload [ status_payload s ↦ s | _ ↦ db.business.status ]
]

abbrev pub status_event : Status → ℕ → Key → ℕ → Option ℕ → ℕ → NewEvent
status_event status at key ingested caused_by generation = record {
  event_type = status_changed;
  effective_time = at;
  event_priority = 30;
  source_sequence = 0;
  ingest_time = ingested;
  idempotency_key = key;
  payload = status_payload status;
  source_record_id = none;
  caused_by_event_id = caused_by;
  replay_generation = generation;
}

-- `replay_generation == 0` and a pending replay review.
abbrev pub awaits_replay_review : Db → ℕ → Bool
awaits_replay_review db generation =
    generation == 0
    && exists (λ (p : Pending). is_pending p.status && action_eq p.action_type replay_review)
        db.pendings

abbrev pub is_late_status : Db → ℕ → ℕ → ℕ → ℕ → Bool
is_late_status db at ingested e generation =
    generation == 0 && (ltb at ingested && has_later_effective_event db at 30 0 e)

abbrev pub settled_status :
    Option (ℕ × Db) → ℕ → Status → Status → ℕ → ℕ → Result InputError (PolicyOutcome × Db)
settled_status none at status previous e generation = raise out_of_fuel
settled_status (some (_, db)) at status previous e generation =
    ok (outcome e true, apply_status db at status previous e generation)

module _ (replay : Db → ℕ → ℕ → Result InputError Db) where
  -- The part from the new event on.
  unfoldable pub new_status :
      Db → Status → Status → ℕ → ℕ → ℕ → ℕ → Result InputError (PolicyOutcome × Db)
  new_status db status previous at ingested e generation =
      if before_checkpoint db generation at
      then ok (
          record_policy_review db none (event_replay_review e) ingested "状态变更早于已确认复核事件，需重新复核"
            replay_review)
      else if is_late_status db at ingested e generation
      then replayed replay e (replay db e ingested)
      else settled_status (settle_due_cycles db (at - 1)) at status previous e generation

  unfoldable pub process_status_change :
      Db → Status → ℕ → Key → ℕ → Option ℕ → ℕ → Result InputError (PolicyOutcome × Db)
  process_status_change db status at key ingested caused_by generation =
      let (_, db₁) = ensure_policy_state db in
      let (e, created, db₂) =
        insert_event db₁ (status_event status at key ingested caused_by generation) in
      if awaits_replay_review db generation
      then ok (nothing, db)
      else if is_future at ingested
      then raise future_time
      else if created
      then new_status db₂ status (previous_status db₁ at) at ingested e generation
      else ok (outcome e false, db₂)

-- A returned scope is well-formed, and the one error is that of a change from the future.
abbrev pub KeepsScope : ℕ → ℕ → Result InputError (PolicyOutcome × Db) → Type 0
KeepsScope at ingested (ok r) = IsValid r.1
KeepsScope at ingested (raise missing_record) = ⊥
KeepsScope at ingested (raise future_time) = ingested < at
KeepsScope at ingested (raise out_of_fuel) = ⊥
KeepsScope at ingested (raise replay_failed) = ⊥

pub IsSettledFor-IsValid : (s : Status) (db : Db) → IsSettledFor s db → IsValid db
IsSettledFor-IsValid normal_status db v = v
IsSettledFor-IsValid consulted db v = v
IsSettledFor-IsValid last_warning db v = v
IsSettledFor-IsValid left db v = IsIdle-IsValidFrom 0 v
IsSettledFor-IsValid removed db v = IsIdle-IsValidFrom 0 v
IsSettledFor-IsValid blacklisted db v = IsIdle-IsValidFrom 0 v

pub IsValid-record_policy_review :
    (db : Db) (source : Option ℕ) (key : Key) (at : ℕ) (why : String) (a : ActionType)
    → IsValid db
    → IsValid (record_policy_review db source key at why a).1
unfolding record_policy_review
IsValid-record_policy_review db source key at why a v =
    IsValidFrom-SameCore
      (SameCore-trans (SameCore-ensure db)
        (SameCore-trans (SameCore-insert_event _ _) (SameCore-create_pending _ a why _)))
      v

-- The scope with the change in its log, after the number of its event and whether it is new.
abbrev pub logged_status : Db → Status → ℕ → Key → ℕ → Option ℕ → ℕ → ℕ × Bool × Db
logged_status db status at key ingested caused_by generation =
    insert_event (ensure_policy_state db).1
      (status_event status at key ingested caused_by generation)

module _ (replay : Db → ℕ → ℕ → Result InputError Db) where
  -- A late change is left to the replay: the answer is the replay's, on a well-formed scope whose log
  -- has a later effective event.
  abbrev pub IsReplayed :
      ℕ → ℕ → ℕ → ℕ × Bool × Db → Result InputError (PolicyOutcome × Db) → Type 0
  IsReplayed at ingested g (e, created, db) answer =
      IsValid db
      × (created ≡ true)
      × (before_checkpoint db g at ≡ false)
      × (is_late_status db at ingested e g ≡ true)
      × (answer ≡ replayed replay e (replay db e ingested))

  KeepsScope-new_status :
      (db : Db) (status previous : Status) (at ingested e g : ℕ)
      → IsValid db
      → KeepsScope at ingested (new_status replay db status previous at ingested e g)
        ⊎ IsReplayed at ingested g
            (e, true, db)
            (new_status replay db status previous at ingested e g)
  unfolding new_status
  KeepsScope-new_status db status previous at ingested e g v =
      let total = settle_due_cycles-total db (at - 1) v in
      elim (Bool-cases (before_checkpoint db g at)) [
        | inl before ↦ rw before (
            inl (
              IsValid-record_policy_review db none (event_replay_review e) ingested _ replay_review
                v))
        | inr after ↦ rw after (elim (Bool-cases (is_late_status db at ingested e g)) [
          | inl late ↦ rw late (inr (v, refl, refl, refl, refl))
          | inr in_order ↦
              rw (in_order, total.1)
                (inl (
                  IsSettledFor-IsValid status _
                    (apply_status-IsSettledFor total.0.1 at status previous e g total.2)))
        ])
      ]

  -- On a well-formed scope, whatever the replay answers: process_status_change returns a well-formed
  -- scope, or raises for a change whose time is later than the time of processing; or the change is
  -- new, not before the checkpoint and late, the scope with it in the log is well-formed, and the
  -- answer is the replay's of that scope.
  pub process_status_change-KeepsScope :
      (db : Db) (status : Status) (at : ℕ) (key : Key) (ingested : ℕ) (by : Option ℕ) (g : ℕ)
      → IsValid db
      → KeepsScope at ingested (process_status_change replay db status at key ingested by g)
        ⊎ IsReplayed at ingested g
            (logged_status db status at key ingested by g)
            (process_status_change replay db status at key ingested by g)
  unfolding process_status_change
  process_status_change-KeepsScope db status at key ingested by g v =
      let db₁ = (ensure_policy_state db).1 in
      let new = logged_status db status at key ingested by g in
      let v₂ =
        IsValidFrom-SameCore
          (SameCore-trans (SameCore-ensure db)
            (SameCore-insert_event db₁ (status_event status at key ingested by g)))
          v in
      elim (Bool-cases (awaits_replay_review db g)) [
        | inl waits ↦ rw waits (inl v)
        | inr free ↦ rw free (elim (Bool-cases (is_future at ingested)) [
          | inl future ↦ rw future (inl (ltb→lt ingested at future))
          | inr past ↦ rw past (elim (Bool-cases new.1) [
            | inl created ↦
                rw created (
                  KeepsScope-new_status new.2 status (previous_status db₁ at) at ingested new.0 g
                    v₂)
            | inr known ↦ rw known (inl v₂)
          ])
        ])
      ]
