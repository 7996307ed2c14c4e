-- ===== src/Outbox/Settled.antt =====
-- What the service does by itself leaves the rows alone whose delivery is decided or unknown.
use Prim.Native.Char.{Char}
use qq_violation_bot.Prelude.{
  ℕ, ◌≡◌, ap, subst, Bool, true, false, ◌&&◌, ◌||◌, Option, some, List, [], ◌∷◌, ◌++◌, String,
  arith, All, select, select_test, exists, update, length, leb, ltb, ◌==◌, Bool-cases, if-ind,
  Option-cases, inl, inr, Result, ok, raise,
}
use qq_violation_bot.Outbox.Types.{
  Row, Ledger, Claim, Status, Outcome, delivered, delivery_unknown, exhausted, is_sending,
  max_pending_alerts, max_report_chars, alert_id_of,
}
use qq_violation_bot.Outbox.Ops.{
  Report, Error, enqueue, recover, claim, release, begin_send, finish, abort_unsent, has_key,
  abandoned, interrupted, free_row, interrupted_row, is_due, first_of, lease_row, holds,
  release_row, may_send, send_row, finish_row, abort_row, new_row, is_attempt, attempt_count_of,
  count_undelivered,
}
use qq_violation_bot.Outbox.Valid.{
  IsValid, Steps, Steps-all, Steps-only, Has-select, All-Has, only_row, find-update,
}
use qq_violation_bot.Outbox.Keep.{
  IsValid-recover, first_of_test, Has-first_of, RowStep-free, RowStep-interrupted, RowStep-lease,
  RowStep-release, RowStep-send, RowStep-finish, RowStep-abort,
}
use qq_violation_bot.Outbox.Steps.{
  Automatic, enqueued, recovered, claimed, released, begun, ended, aborted, AutomaticReach, start,
  further, IsValid-Automatic,
}

-- Delivered, unknown or exhausted.
abbrev pub is_settled : Status → Bool
is_settled delivered = true
is_settled delivery_unknown = true
is_settled exhausted = true
is_settled _ = false

abbrev pub find : Ledger → ℕ → Option Row
find l k = select (has_key k) l.rows

module _ (k : ℕ) (r : Row) (settled : is_settled r.status ≡ true) where
  find_kept :
      (test : Row → Bool) (f : Row → Row) (rows : List Row)
      → Steps test f rows
      → test r ≡ false
      → select (has_key k) rows ≡ some r
      → select (has_key k) (update test f rows) ≡ some r
  find_kept test f rows steps e h = rw e at (find-update test f k rows r steps h)

  -- The row of a claim is another one.
  other_row :
      (rows : List Row) (s : Row)
      → is_settled s.status ≡ false
      → All (λ t. has_key s.event_key t ≡ true → t ≡ s) rows
      → select (has_key k) rows ≡ some r
      → has_key s.event_key r ≡ false
  other_row rows s free only h = elim (Bool-cases (has_key s.event_key r)) [
    | inl same ↦
        let e = All-Has _ rows r only (Has-select _ rows r h) same in
        absurd (cc (settled, free, ap (λ (x : Row). is_settled x.status) e))
    | inr other ↦ other
  ]

  find-recover : (l : Ledger) (now : ℕ) → find l k ≡ some r → find (recover l now) k ≡ some r
  unfolding recover
  find-recover l now h =
      find_kept (interrupted now) (interrupted_row now) _
        (Steps-all _ _ _ (λ s e. RowStep-interrupted now s (ground arith))) (ground arith)
        (find_kept (abandoned now) (free_row now) l.rows
          (Steps-all _ _ l.rows (λ s e. RowStep-free now s (ground arith))) (ground arith) h)

  find-claim :
      (l : Ledger) (now : ℕ) (self : String) (key : Option ℕ) (token : ℕ)
      → IsValid l
      → find l k ≡ some r
      → find (claim l now self key token).1 k ≡ some r
  unfolding claim
  find-claim l now self key token v h =
      let l' = recover l now in
      let v' = IsValid-recover l now v in
      let h' = find-recover l now h in
      elim (Option-cases (first_of (is_due now self key) l'.rows)) [
        | inl e ↦ rw (e, claim) h'
        | inr (s, e) ↦
            let due = first_of_test (is_due now self key) l'.rows s e in
            let only = only_row l'.rows s v'.keys (Has-first_of _ l'.rows s e) in
            rw (e, claim)
              (find_kept (has_key s.event_key) (lease_row now token) l'.rows
                (Steps-only s.event_key _ l'.rows s only (RowStep-lease now token s (ground arith)))
                (other_row l'.rows s (ground arith) only h') h')
      ]

  find-finish :
      (l : Ledger) (c : Claim) (outcome : Outcome) (now : ℕ) (receipt : List Char)
      → IsValid l
      → find l k ≡ some r
      → find (finish l c outcome now receipt).1 k ≡ some r
  unfolding finish
  find-finish l c outcome now receipt v h =
      let mine = λ (s : Row). holds c s && is_sending s.status in
      elim (Option-cases (select mine l.rows)) [
        | inl e ↦ rw (e, finish) h
        | inr (s, e) ↦
            let hit = select_test mine l.rows s e in
            let key : s.event_key ≡ c.event_key = ground arith in
            let only = only_row l.rows s v.keys (Has-select mine l.rows s e) in
            let there =
              find_kept (has_key s.event_key) (finish_row s outcome now receipt) l.rows
                (Steps-only s.event_key _ l.rows s only
                  (RowStep-finish outcome now receipt s (ground arith)))
                (other_row l.rows s (ground arith) only h) h in
            rw (e, finish)
              (subst
                (λ i.
                  select (has_key k) (update (has_key i) (finish_row s outcome now receipt) l.rows)
                  ≡ some r)
                key there)
      ]

  find-release :
      (l : Ledger) (c : Claim) (now : ℕ) → find l k ≡ some r → find (release l c now) k ≡ some r
  unfolding release
  find-release l c now h =
      find_kept _ (release_row now) l.rows
        (Steps-all _ _ l.rows (λ s e. RowStep-release now s (ground arith))) (ground arith) h

  find-abort_unsent :
      (l : Ledger) (c : Claim) (now : ℕ)
      → find l k ≡ some r
      → find (abort_unsent l c now) k ≡ some r
  unfolding abort_unsent
  find-abort_unsent l c now h =
      let mine = λ (s : Row). holds c s && is_sending s.status in
      elim (Bool-cases (exists mine l.rows)) [
        | inl e ↦ rw e (
            find_kept mine (abort_row now) l.rows
              (Steps-all _ _ l.rows (λ s e. RowStep-abort now s (ground arith))) (ground arith) h)
        | inr e ↦ rw e h
      ]

  -- The row is found in the ledger of a result, unless it is an error.
  abbrev FindsIn : {A B : Type 0} → Result Error (A × B × Ledger) → Type 0
  FindsIn (ok a) = find a.2 k ≡ some r
  FindsIn (raise e) = Unit

  find-begin_send :
      (l : Ledger) (c : Claim) (now : ℕ) → find l k ≡ some r → FindsIn (begin_send l c now)
  unfolding begin_send
  find-begin_send l c now h =
      let rows = update (may_send c now) (send_row now) l.rows in
      let n = attempt_count_of c.event_key rows in
      let there =
        find_kept (may_send c now) (send_row now) l.rows
          (Steps-all _ _ l.rows (λ s e. RowStep-send now s (ground arith))) (ground arith) h in
      elim (Bool-cases (exists (may_send c now) l.rows)) [
        | inr e ↦ rw e h
        | inl e ↦ rw e (elim (Bool-cases (exists (is_attempt c.event_key n) l.attempts)) [
          | inl e ↦ rw e tt
          | inr e ↦ rw e there
        ])
      ]

  select-append_found :
      (rows : List Row) (s : Row)
      → select (has_key k) rows ≡ some r
      → select (has_key k) (rows ++ s ∷ []) ≡ some r
  unfolding select
  select-append_found [] s h = absurd (cc)
  select-append_found (t ∷ rows) s h = ground (arith, select-append_found rows s)

  find-enqueue : (l : Ledger) (p : Report) (now : ℕ) → find l k ≡ some r → FindsIn (enqueue l p now)
  unfolding enqueue
  find-enqueue l p now h =
      let there = select-append_found l.rows (new_row p now) h in
      if-ind FindsIn (length p.report_text == 0 || ltb max_report_chars (length p.report_text))
        (λ _. tt)
        (λ _.
          if-ind FindsIn (ltb 512 (length p.rule_generation)) (λ _. tt)
            (λ _.
              if-ind FindsIn (exists (has_key p.key) l.rows) (λ _. h)
                (λ _.
                  if-ind FindsIn (leb max_pending_alerts (count_undelivered l.rows)) (λ _. tt)
                    (λ _.
                      if-ind FindsIn (exists (λ (s : Row). s.alert_id == alert_id_of p.key) l.rows)
                        (λ _. tt) (λ _. there)))))

  find-Automatic :
      {l l' : Ledger} → Automatic l l' → IsValid l → find l k ≡ some r → find l' k ≡ some r
  find-Automatic {l} (enqueued p now i b e) v h = subst FindsIn e (find-enqueue l p now h)
  find-Automatic {l} (recovered now) v h = find-recover l now h
  find-Automatic {l} (claimed now self key token) v h = find-claim l now self key token v h
  find-Automatic {l} (released c now) v h = find-release l c now h
  find-Automatic {l} (begun c c' now b e) v h = subst FindsIn e (find-begin_send l c now h)
  find-Automatic {l} (ended c outcome now receipt) v h = find-finish l c outcome now receipt v h
  find-Automatic {l} (aborted c now) v h = find-abort_unsent l c now h

AutomaticReach-IsValid : {l l' : Ledger} → AutomaticReach l l' → IsValid l → IsValid l'
AutomaticReach-IsValid start v = v
AutomaticReach-IsValid (further r s) v = IsValid-Automatic s (AutomaticReach-IsValid r v)

-- On a well-formed ledger, whatever the service does by itself, in any order: a row that is
-- delivered, of unknown delivery or exhausted stays exactly as it is, so its report is not sent
-- again without a decision of the operator.
pub AutomaticReach-find :
    {l l' : Ledger} (k : ℕ) (r : Row)
    → AutomaticReach l l'
    → IsValid l
    → find l k ≡ some r
    → is_settled r.status ≡ true
    → find l' k ≡ some r
AutomaticReach-find k r start v h s = h
AutomaticReach-find k r (further w a) v h s =
    find-Automatic k r s a (AutomaticReach-IsValid w v) (AutomaticReach-find k r w v h s)
