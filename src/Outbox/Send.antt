-- ===== src/Outbox/Send.antt =====
-- `enqueue` and `begin_send`, which insert rows: the ledger stays well-formed, and the primary key of
-- the attempts is never violated.
use qq_violation_bot.Prelude.{
  ℕ, suc, ◌+◌, ◌≤◌, ◌≡◌, ◌≢◌, refl, sym, ap, subst, Bool, true, false, ◌||◌, some, List, [], ◌∷◌,
  ◌++◌, arith, All, All-append, All-map, update, select, select_test, exists, length, leb, ltb,
  ◌==◌, Bool-cases, inl, inr, Result, ok, raise,
}
use qq_violation_bot.Outbox.Types.{
  Row, Attempt, Ledger, Claim, max_pending_alerts, max_report_chars, alert_id_of,
}
use qq_violation_bot.Outbox.Ops.{
  Report, Error, enqueue, new_row, has_key, count_undelivered, is_attempt, may_send, send_row,
  new_attempt, attempt_count_of, begin_send,
}
use qq_violation_bot.Outbox.Valid.{
  IsSound, Distinct, Counted, Covered, IsValid, Steps, Steps-all, Has, Has-select, only_row,
  find-Has, find-update, absent, IsValid-update, All-Has,
}
use qq_violation_bot.Outbox.Keep.{RowStep-send}

-- An operation that raises is rolled back.
abbrev pub KeepsValid : Result Error (ℕ × Bool × Ledger) → Type 0
KeepsValid (ok r) = IsValid r.2
KeepsValid (raise e) = Unit

Distinct-append :
    (rows : List Row) (r : Row)
    → All (λ s. s.event_key ≢ r.event_key) rows
    → Distinct rows
    → Distinct (rows ++ r ∷ [])
Distinct-append [] r h d = (tt, tt)
Distinct-append (s ∷ rs) r h d = (
  All-append (λ s'. s'.event_key ≢ s.event_key) rs r d.0 (λ e. h.0 (sym e)),
  Distinct-append rs r h.1 d.1,
)

exists-append :
    (test : Row → Bool) (rows : List Row) (r : Row)
    → exists test rows ≡ true
    → exists test (rows ++ r ∷ []) ≡ true
unfolding exists
exists-append test [] r e = absurd (cc)
exists-append test (s ∷ rs) r e = ground (arith, exists-append test rs r)

undelivered-append :
    (rows : List Row) (r : Row) → count_undelivered (rows ++ r ∷ []) ≤ suc (count_undelivered rows)
undelivered-append [] r = ground arith
undelivered-append (s ∷ rs) r = ground (arith, undelivered-append rs r)

IsSound-new_row : (p : Report) (now : ℕ) → IsSound (new_row p now)
IsSound-new_row p now = record {
  limit = omega arith;
  sent = omega arith;
  token = refl;
  until = refl;
}

IsValid-new_row :
    (l : Ledger) (p : Report) (now : ℕ)
    → exists (has_key p.key) l.rows ≡ false
    → leb max_pending_alerts (count_undelivered l.rows) ≡ false
    → IsValid l
    → IsValid (record l { rows = l.rows ++ new_row p now ∷ [] })
IsValid-new_row l p now fresh room v = record {
  sound = All-append IsSound l.rows (new_row p now) v.sound (IsSound-new_row p now);
  keys = Distinct-append l.rows (new_row p now) (absent p.key l.rows fresh) v.keys;
  covered =
      All-map (Covered l.rows) (Covered (l.rows ++ new_row p now ∷ [])) l.attempts
        (λ (a : Attempt) c. (
          exists-append (has_key a.event_key) l.rows (new_row p now) c.0,
          All-append (Counted a) l.rows (new_row p now) c.1
              (λ (same : p.key ≡ a.event_key). absurd (cc (fresh, c.0, same))),
        ))
        v.covered;
  capacity = ground (arith, undelivered-append l.rows (new_row p now));
}

-- Whether the report is queued, known or refused.
pub enqueue-KeepsValid :
    (l : Ledger) (p : Report) (now : ℕ) → IsValid l → KeepsValid (enqueue l p now)
unfolding enqueue
enqueue-KeepsValid l p now v =
    elim (Bool-cases (length p.report_text == 0 || ltb max_report_chars (length p.report_text))) [
      | inl e ↦ rw e tt
      | inr e ↦ rw e (elim (Bool-cases (ltb 512 (length p.rule_generation))) [
        | inl e ↦ rw e tt
        | inr e ↦ rw e (elim (Bool-cases (exists (has_key p.key) l.rows)) [
          | inl e ↦ rw e v
          | inr fresh ↦
              rw fresh (elim (Bool-cases (leb max_pending_alerts (count_undelivered l.rows))) [
                | inl e ↦ rw e tt
                | inr room ↦
                    rw room
                      (elim (Bool-cases
                        (exists (λ (r : Row). r.alert_id == alert_id_of p.key) l.rows)) [
                          | inl e ↦ rw e tt
                          | inr e ↦ rw e (IsValid-new_row l p now fresh room v)
                        ])
              ])
        ])
      ])
    ]

-- `begin_send` returns, and leaves a well-formed ledger.
abbrev pub Starts : Result Error (Bool × Claim × Ledger) → Type 0
Starts (ok r) = IsValid r.2
Starts (raise e) = ⊥

pub exists-select :
    (test : Row → Bool) (rows : List Row)
    → exists test rows ≡ true
    → (r : Row) × (select test rows ≡ some r)
unfolding exists select
exists-select test [] e = absurd (cc)
exists-select test (s ∷ rs) e = elim (Bool-cases (test s)) [
  | inl hit ↦ (s, rw hit refl)
  | inr miss ↦ let (r, found) = exists-select test rs (ground arith) in (r, rw miss found)
]

-- No attempt has a number above the count of its row.
no_attempt :
    (rows : List Row) (r : Row) (attempts : List Attempt)
    → Has r rows
    → All (Covered rows) attempts
    → exists (is_attempt r.event_key (r.attempt_count + 1)) attempts ≡ false
unfolding exists
no_attempt rows r [] m h = refl
no_attempt rows r (a ∷ rest) m h =
    let bound = All-Has (Counted a) rows r h.0.1 m in
    let others = no_attempt rows r rest m h.1 in
    elim (Bool-cases (is_attempt r.event_key (r.attempt_count + 1) a)) [
      | inl hit ↦ absurd (ground (arith, bound (ground arith)))
      | inr miss ↦ rw miss others
    ]

select_exists :
    (test : Row → Bool) (rows : List Row) (r : Row)
    → select test rows ≡ some r
    → exists test rows ≡ true
unfolding exists select
select_exists test [] r e = absurd (cc)
select_exists test (s ∷ rs) r e = ground (arith, select_exists test rs r)

-- What the statements of begin_send leave, at the key `k` of the row.
abbrev Started : Ledger → List Row → ℕ → ℕ → ℕ → Type 0
Started l rows k n now =
    (attempt_count_of k rows ≡ n)
    × (exists (is_attempt k n) l.attempts ≡ false)
    × IsValid (record l { rows = rows; attempts = l.attempts ++ new_attempt k n now ∷ [] })

Started-row :
    (l : Ledger) (test : Row → Bool) (now : ℕ) (r : Row)
    → Steps test (send_row now) l.rows
    → test r ≡ true
    → Has r l.rows
    → IsValid l
    → Started l (update test (send_row now) l.rows) r.event_key (r.attempt_count + 1) now
Started-row l test now r steps hit m v =
    let s = send_row now r in
    let rows = update test (send_row now) l.rows in
    let n = r.attempt_count + 1 in
    let a = new_attempt r.event_key n now in
    let v' = IsValid-update test (send_row now) l steps v in
    let before = find-Has l.rows r m (only_row l.rows r v.keys m) in
    let after : select (has_key r.event_key) rows ≡ some s =
      rw hit at (find-update test (send_row now) r.event_key l.rows r steps before) in
    let only = only_row rows s v'.keys (Has-select _ rows s after) in
    let counted : All (Counted a) rows =
      All-map _ (Counted a) rows
        (λ (t : Row) h e. ground (arith, ap (λ (x : Row). x.attempt_count) (h (ground arith))))
        only in
    (
      rw (after, attempt_count_of) refl,
      no_attempt l.rows r l.attempts m v.covered,
      record {
        sound = v'.sound;
        keys = v'.keys;
        covered =
            All-append (Covered rows) l.attempts a v'.covered
              (select_exists _ rows s after, counted);
        capacity = v'.capacity;
      },
    )

begin_send_row :
    (l : Ledger) (c : Claim) (now : ℕ) (r : Row)
    → IsValid l
    → select (may_send c now) l.rows ≡ some r
    → Starts (begin_send l c now)
unfolding begin_send
begin_send_row l c now r v e =
    let hit = select_test (may_send c now) l.rows r e in
    let key : r.event_key ≡ c.event_key = ground arith in
    let rows = update (may_send c now) (send_row now) l.rows in
    let steps : Steps (may_send c now) (send_row now) l.rows =
      Steps-all _ _ l.rows (λ s h. RowStep-send now s (ground arith)) in
    let done =
      subst (λ k. Started l rows k (r.attempt_count + 1) now) key
        (Started-row l (may_send c now) now r steps hit (Has-select _ l.rows r e) v) in
    rw (select_exists (may_send c now) l.rows r e, done.0, done.1) done.2

-- On a well-formed ledger `begin_send` never violates the primary key of the attempts: it returns,
-- and the ledger is well-formed after it.
pub begin_send-Starts : (l : Ledger) (c : Claim) (now : ℕ) → IsValid l → Starts (begin_send l c now)
unfolding begin_send
begin_send-Starts l c now v = elim (Bool-cases (exists (may_send c now) l.rows)) [
  | inl e ↦
      let (r, found) = exists-select (may_send c now) l.rows e in begin_send_row l c now r v found
  | inr e ↦ rw e v
]
