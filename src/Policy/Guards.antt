-- ===== src/Policy/Guards.antt =====
-- The keys of events: what _insert_event finds, and what it leaves.
use qq_violation_bot.Prelude.{
  ◌+◌, ◌++◌, ◌≡◌, refl, ap, ◌∙◌, false, Option, none, some, select, [], ◌∷◌, select-append,
  Option-cases, inl, inr,
}
use qq_violation_bot.Policy.Types.{Db, Event, Key}
use qq_violation_bot.Policy.Keys.{key_eq_refl}
use qq_violation_bot.Policy.Events.{NewEvent, insert_event, find_event, is_keyed, event_row}

-- A row of the scope is found before those of the other scopes.
own_none : (db : Db) (k : Key) → find_event db k ≡ none → select (is_keyed k) db.events ≡ none
unfolding find_event
own_none db k h = elim (Option-cases (select (is_keyed k) db.events)) [
  | inl fails ↦ fails
  | inr (e, hit) ↦
      let wrong : ◌≡◌ {A = Option Event} (some e) none = rw (hit, find_event) at h in absurd (cc)
]

own_some :
    (db : Db) (k : Key) (e : Event)
    → select (is_keyed k) db.events ≡ some e
    → find_event db k ≡ some e
unfolding find_event
own_some db k e h = rw (h, find_event) refl

-- What a first insertion leaves is found again.
found_after :
    (db : Db) (e : NewEvent)
    → (old : Event) × (find_event (insert_event db e).2 e.idempotency_key ≡ some old)
      × (old.id ≡ (insert_event db e).0)
unfolding insert_event find_event event_row
found_after db e = elim (Option-cases (find_event db e.idempotency_key)) [
  | inr (old, h) ↦ (old, rw (h, insert_event) h, rw (h, insert_event))
  | inl h ↦ (
    event_row db.next_event e,
    rw (h, insert_event)
        (own_some
          (record db {
            events = db.events ++ event_row db.next_event e ∷ [];
            next_event = db.next_event + 1;
          })
          e.idempotency_key (event_row db.next_event e)
          (select-append (is_keyed e.idempotency_key) db.events (event_row db.next_event e)
            (own_none db e.idempotency_key h) (key_eq_refl e.idempotency_key))),
    rw (h, insert_event),
  )
]

-- The key of an event decides: a second insertion under it returns the first id and changes nothing.
pub insert_event_twice :
    (db : Db) (e f : NewEvent)
    → f.idempotency_key ≡ e.idempotency_key
    → insert_event (insert_event db e).2 f ≡ ((insert_event db e).0, false, (insert_event db e).2)
insert_event_twice db e f same =
    let (old, found, i) = found_after db e in
    again (insert_event db e).2 f old (rw same found)
    ∙ ap (λ j. (j, false, (insert_event db e).2)) i
  where
    again :
        (d : Db) (f : NewEvent) (old : Event)
        → find_event d f.idempotency_key ≡ some old
        → insert_event d f ≡ (old.id, false, d)
    again d f old h = unfold insert_event in rw (h, insert_event)
