-- ===== src/Policy/Events.antt =====
-- The event log and the pending actions: _insert_event, ensure_policy_scope_snapshot,
-- _create_pending_action, policy_scope_under_review, _resolve_pending_actions.
use qq_violation_bot.Prelude.{
  ℕ, ◌+◌, Bool, true, false, not, ◌&&◌, ◌||◌, Option, none, some, [], ◌∷◌, ◌++◌, String, pos, ◌-ℤ◌,
  select, exists, update,
}
use qq_violation_bot.Policy.Types.{
  Db, Policy, Event, EventType, Payload, Key, Pending, ActionType, no_tag, pending, resolved,
  is_pending, action_eq, input_review, replay_review, event_pending,
}
use qq_violation_bot.Policy.Keys.{key_eq}
use qq_violation_bot.Policy.Count.{sum_deltas, all_records}

-- The arguments of _insert_event.
pub record NewEvent : Type 0 where
  pub event_type : EventType
  pub effective_time : ℕ
  pub event_priority : ℕ
  pub source_sequence : ℕ
  pub ingest_time : ℕ
  pub idempotency_key : Key
  pub payload : Payload
  pub source_record_id : Option ℕ
  pub caused_by_event_id : Option ℕ
  pub replay_generation : ℕ

unfoldable pub event_row : ℕ → NewEvent → Event
event_row i e = record {
  id = i;
  event_type = e.event_type;
  effective_time = e.effective_time;
  event_priority = e.event_priority;
  source_sequence = e.source_sequence;
  ingest_time = e.ingest_time;
  source_record_id = e.source_record_id;
  caused_by_event_id = e.caused_by_event_id;
  replay_generation = e.replay_generation;
  payload = e.payload;
  idempotency_key = e.idempotency_key;
  is_effective = true;
  superseded_by_replay_id = none;
}

abbrev pub is_keyed : Key → Event → Bool
is_keyed k e = key_eq e.idempotency_key k

-- WHERE idempotency_key=?, over the events of every scope.
unfoldable pub find_event : Db → Key → Option Event
find_event db k = elim (select (is_keyed k) db.events) [
  | some e ↦ some e
  | none ↦ select (is_keyed k) db.other_events
]

-- INSERT OR IGNORE: the id of the row with the key, whether it is new, and the tables.
unfoldable pub insert_event : Db → NewEvent → ℕ × Bool × Db
unfolding find_event event_row
insert_event db e = elim (find_event db e.idempotency_key) [
  | some old ↦ (old.id, false, db)
  | none ↦ (
    db.next_event,
    true,
    record db {
      events = db.events ++ event_row db.next_event e ∷ [];
      next_event = db.next_event + 1;
    },
  )
]

-- The row that ensure_policy_scope_snapshot inserts; of the baseline columns, those that a later
-- operation reads.
unfoldable pub snapshot : Db → Policy
unfolding ◌-ℤ◌
snapshot db = record {
  policy_tag = no_tag;
  slow_level = 0;
  v102_operation_count = 0;
  baseline_adjustment = pos db.business.total_count -ℤ sum_deltas all_records db.records;
  baseline_deduct_count = db.business.deduct_count;
  baseline_locked = db.business.locked;
  baseline_status = db.business.status;
  baseline_record_watermark = db.last_record;
  baseline_last_final_warning_time = db.business.last_final_warning_time;
  active_cycle_id = none;
  no_cycle_reason = none;
  pending_action_type = none;
  last_processed_event_id = none;
  state_version = 0;
  last_reason = none;
}

-- ON CONFLICT DO NOTHING, then the row.
unfoldable pub ensure_policy_state : Db → Policy × Db
unfolding snapshot
ensure_policy_state db = elim db.policy [
  | some p ↦ (p, db)
  | none ↦ (snapshot db, record db { policy = some (snapshot db) })
]

-- UPDATE v102_policy_state SET …: nothing happens when the scope has no row.
unfoldable pub update_policy : (Policy → Policy) → Db → Db
update_policy f db = elim db.policy [ none ↦ db | some p ↦ record db { policy = some (f p) } ]

abbrev pub is_pending_of : ActionType → Pending → Bool
is_pending_of a p = is_pending p.status && action_eq p.action_type a

unfoldable pub find_pending : Db → (ActionType → Bool) → Option Pending
find_pending db types =
    select (λ (p : Pending). is_pending p.status && types p.action_type) db.pendings

abbrev pub is_review : ActionType → Bool
is_review a = action_eq a input_review || action_eq a replay_review

unfoldable pub policy_scope_under_review : Db → Bool
policy_scope_under_review db =
    exists (λ (p : Pending). is_pending p.status && is_review p.action_type) db.pendings

unfoldable pub pending_row : ℕ → ActionType → String → ℕ → Pending
pending_row i action reason caused_by = record {
  id = i;
  action_type = action;
  status = pending;
  due_at = none;
  reason = reason;
  caused_by_event_id = caused_by;
  decision_event_id = none;
  idempotency_key = event_pending caused_by action;
}

-- INSERT OR IGNORE on the key of the causing event and the action.
unfoldable pub insert_pending : Db → ActionType → String → ℕ → ℕ × Db
unfolding pending_row
insert_pending db action reason caused_by =
    elim (select (λ (p : Pending). key_eq p.idempotency_key (event_pending caused_by action))
      db.pendings) [
        | some old ↦ (old.id, db)
        | none ↦ (
          db.next_pending,
          record db {
            pendings = db.pendings ++ pending_row db.next_pending action reason caused_by ∷ [];
            next_pending = db.next_pending + 1;
          },
        )
      ]

unfoldable pub create_pending_action : Db → ActionType → String → ℕ → ℕ × Db
unfolding find_pending insert_pending update_policy
create_pending_action db action reason caused_by = elim (find_pending db (action_eq action)) [
  | some old ↦ (old.id, db)
  | none ↦
      let (i, db') = insert_pending db action reason caused_by in
      (
        i,
        update_policy
            (λ p. record p {
              pending_action_type = some action;
              last_reason = some reason;
              state_version = p.state_version + 1;
            })
            db',
      )
]

abbrev pub resolve_row : ℕ → Pending → Pending
resolve_row event p = record p { status = resolved; decision_event_id = some event }

-- `types` is the condition on action_type that the arguments build.
unfoldable pub resolve_pending_actions : Db → ℕ → (ActionType → Bool) → Db
unfolding find_pending update_policy
resolve_pending_actions db event types =
    let db' = record db {
      pendings =
          update (λ (p : Pending). is_pending p.status && types p.action_type) (resolve_row event)
            db.pendings;
    } in
    update_policy
      (λ p. record p {
        pending_action_type = elim (find_pending db' (λ _. true)) [
          | none ↦ none
          | some r ↦ some r.action_type
        ];
      })
      db'

-- `action_types=None`: every type but the two reviews.
abbrev pub not_review : ActionType → Bool
not_review a = not (is_review a)
