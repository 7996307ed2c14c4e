-- ===== src/Policy/Review.antt =====
-- What guards the inputs of the policy: _validate_effective_time, _has_later_effective_event,
-- record_policy_review, _latest_review_checkpoint, _set_event_evaluation_owner.
use qq_violation_bot.Prelude.{
  ℕ, Bool, false, not, ◌&&◌, ◌||◌, Option, none, some, List, [], ◌∷◌, String, exists, update, ltb,
  ◌==◌, if◌then◌else◌,
}
use qq_violation_bot.Policy.Types.{
  Db, Event, Key, Payload, PolicyOutcome, ActionType, policy_review_required,
  policy_review_resolved, review_payload,
}
use qq_violation_bot.Policy.Events.{insert_event, ensure_policy_state, create_pending_action}

-- Why an input is not processed: no such record, PolicyInputError, a replay that raises; the model's
-- fuel would be the fourth.
pub data InputError : Type 0 where
  missing_record future_time out_of_fuel replay_failed : InputError

-- (effective_time,event_priority,source_sequence,id)>(?,?,?,?)
abbrev pub comes_after : ℕ → ℕ → ℕ → ℕ → Event → Bool
comes_after at priority sequence i e =
    ltb at e.effective_time
    || (at == e.effective_time
        && (ltb priority e.event_priority
            || (priority == e.event_priority
                && (ltb sequence e.source_sequence
                    || (sequence == e.source_sequence && ltb i e.id)))))

unfoldable pub has_later_effective_event : Db → ℕ → ℕ → ℕ → ℕ → Bool
has_later_effective_event db at priority sequence i =
    exists
      (λ (e : Event). e.is_effective && (not (e.id == i) && comes_after at priority sequence i e))
      db.events

-- `at > ingested_at`, where _validate_effective_time raises PolicyInputError.
abbrev pub is_future : ℕ → ℕ → Bool
is_future at ingested = ltb ingested at

unfoldable pub record_policy_review :
    Db → Option ℕ → Key → ℕ → String → ActionType → PolicyOutcome × Db
record_policy_review db source key at reason action =
    let (_, db₁) = ensure_policy_state db in
    let (e, created, db₂) = insert_event db₁ (record {
      event_type = policy_review_required;
      effective_time = at;
      event_priority = 60;
      source_sequence = elim source [ none ↦ 0 | some i ↦ i ];
      ingest_time = at;
      idempotency_key = key;
      payload = review_payload reason action;
      source_record_id = source;
      caused_by_event_id = none;
      replay_generation = 0;
    }) in
    let (p, db₃) = create_pending_action db₂ action reason e in
    (record { event_id = some e; changed = created; pending_action_id = some p }, db₃)

abbrev pub is_checkpoint : Event → Bool
is_checkpoint e = elim e.event_type [
  | policy_review_resolved ↦ e.replay_generation == 0 && e.is_effective
  | _ ↦ false
]

-- ORDER BY id DESC LIMIT 1: the last such row of the log.
unfoldable pub latest_checkpoint : List Event → Option Event
latest_checkpoint [] = none
latest_checkpoint (e ∷ es) = elim (latest_checkpoint es) [
  | some later ↦ some later
  | none ↦ if is_checkpoint e then some e else none
]

-- `checkpoint is not None and at < checkpoint["effective_time"]`, for an input of generation 0.
unfoldable pub before_checkpoint : Db → ℕ → ℕ → Bool
unfolding latest_checkpoint
before_checkpoint db generation at =
    generation == 0
    && elim (latest_checkpoint db.events) [ none ↦ false | some e ↦ ltb at e.effective_time ]

-- The UPDATE of the event's payload; the payload of a mute holds its evaluation's owner.
unfoldable pub set_evaluation : (Payload → Payload) → ℕ → Db → Db
set_evaluation f i db = record db {
  events = update (λ (e : Event). e.id == i) (λ e. record e { payload = f e.payload }) db.events;
}
