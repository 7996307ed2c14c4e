-- ===== src/Outbox/Keep.antt =====
-- Every operation keeps the ledger well-formed, and none raises where its keys make it impossible.
use Prim.Native.Char.{Char}
use qq_violation_bot.Prelude.{
  ℕ, ◌≡◌, refl, subst, Bool, true, ◌&&◌, Option, some, List, [], ◌∷◌, String, arith, All, update,
  select, select_test, exists, ◌==◌, Bool-cases, Option-cases, inl, inr,
}
use qq_violation_bot.Outbox.Types.{
  Row, Ledger, Claim, Outcome, Action, is_pending, is_leased, is_sending, is_unresolved,
}
use qq_violation_bot.Outbox.Ops.{
  has_key, abandoned, interrupted, free_row, interrupted_row, is_attempt, interrupted_attempt,
  interrupt_attempts, recover, is_due, first_of, before, lease_row, claim, holds, release_row,
  release, send_row, finish_row, finish_attempt, finish, abort_row, abort_attempt, abort_unsent,
  resolve_row, resolve,
}
use qq_violation_bot.Outbox.Valid.{
  IsValid, RowStep, Steps-all, Steps-only, only_row, Has, Has-select, IsValid-update,
  IsValid-update_attempts,
}

pub RowStep-free : (now : ℕ) (r : Row) → is_leased r.status ≡ true → RowStep r (free_row now r)
RowStep-free now r e = record {
  key = refl;
  count = omega arith;
  undelivered = λ d. ground arith;
  sound = λ v. ground arith;
}

pub RowStep-interrupted :
    (now : ℕ) (r : Row) → is_sending r.status ≡ true → RowStep r (interrupted_row now r)
RowStep-interrupted now r e = record {
  key = refl;
  count = omega arith;
  undelivered = λ d. ground arith;
  sound = λ v. ground arith;
}

pub RowStep-lease :
    (now token : ℕ) (r : Row) → is_pending r.status ≡ true → RowStep r (lease_row now token r)
RowStep-lease now token r e = record {
  key = refl;
  count = omega arith;
  undelivered = λ d. ground arith;
  sound = λ v. ground arith;
}

pub RowStep-release :
    (now : ℕ) (r : Row) → is_leased r.status ≡ true → RowStep r (release_row now r)
RowStep-release now r e = record {
  key = refl;
  count = omega arith;
  undelivered = λ d. ground arith;
  sound = λ v. ground arith;
}

pub RowStep-send : (now : ℕ) (r : Row) → is_leased r.status ≡ true → RowStep r (send_row now r)
RowStep-send now r e = record {
  key = refl;
  count = omega arith;
  undelivered = λ d. ground arith;
  sound = λ v. ground arith;
}

pub RowStep-finish :
    (outcome : Outcome) (now : ℕ) (receipt : List Char) (r : Row)
    → is_sending r.status ≡ true
    → RowStep r (finish_row r outcome now receipt r)
unfolding finish_row
RowStep-finish outcome now receipt r e = record {
  key = refl;
  count = omega arith;
  undelivered = λ d. ground arith;
  sound = λ v. ground arith;
}

pub RowStep-abort : (now : ℕ) (r : Row) → is_sending r.status ≡ true → RowStep r (abort_row now r)
RowStep-abort now r e = record {
  key = refl;
  count = omega arith;
  undelivered = λ d. ground arith;
  sound = λ v. ground arith;
}

pub RowStep-resolve :
    (action : Action) (now : ℕ) (r : Row)
    → is_unresolved r.status ≡ true
    → RowStep r (resolve_row action now r)
RowStep-resolve action now r e = record {
  key = refl;
  count = omega arith;
  undelivered = λ d. ground arith;
  sound = λ v. ground arith;
}

IsValid-interrupt_attempts :
    (now : ℕ) (rs : List Row) (l : Ledger)
    → IsValid l
    → IsValid (record l { attempts = interrupt_attempts now rs l.attempts })
unfolding interrupt_attempts
IsValid-interrupt_attempts now [] l v = v
IsValid-interrupt_attempts now (r ∷ rs) l v = elim (Bool-cases (interrupted now r)) [
  | inl e ↦ rw e (
      IsValid-interrupt_attempts now rs
        (record l {
          attempts =
              update (is_attempt r.event_key r.attempt_count) (interrupted_attempt now) l.attempts;
        })
        (IsValid-update_attempts l _ (interrupted_attempt now) (λ a. refl) (λ a. refl) v))
  | inr e ↦ rw e (IsValid-interrupt_attempts now rs l v)
]

pub IsValid-recover : (l : Ledger) (now : ℕ) → IsValid l → IsValid (recover l now)
unfolding recover
IsValid-recover l now v =
    let freed = update (abandoned now) (free_row now) l.rows in
    let l₁ : Ledger = record l { rows = freed } in
    let v₁ =
      IsValid-update (abandoned now) (free_row now) l
        (Steps-all _ _ l.rows (λ r e. RowStep-free now r (ground arith))) v in
    let v₂ = IsValid-interrupt_attempts now freed l₁ v₁ in
    IsValid-update (interrupted now) (interrupted_row now) _
      (Steps-all _ _ freed (λ r e. RowStep-interrupted now r (ground arith))) v₂

-- The row that the SELECT of `claim` returns is one of the table, and due.
pub first_of_test :
    (test : Row → Bool) (rs : List Row) (r : Row) → first_of test rs ≡ some r → test r ≡ true
unfolding first_of
first_of_test test [] r e = absurd (cc)
first_of_test test (s ∷ rs) r e = elim (Option-cases (first_of test rs)) [
  | inl n ↦ ground (arith, n)
  | inr (t, found) ↦ ground (arith, first_of_test test rs t found, found)
]

pub Has-first_of :
    (test : Row → Bool) (rs : List Row) (r : Row) → first_of test rs ≡ some r → Has r rs
unfolding first_of
Has-first_of test [] r e = absurd (cc)
Has-first_of test (s ∷ rs) r e = elim (Bool-cases (test s)) [
  | inr miss ↦ inr (Has-first_of test rs r (ground arith))
  | inl hit ↦ elim (Option-cases (first_of test rs)) [
    | inl n ↦ inl (ground (arith, n))
    | inr (t, found) ↦ elim (Bool-cases (before s t)) [
      | inl first ↦ inl (ground (arith, found))
      | inr after ↦ inr (Has-first_of test rs r (ground (arith, found)))
    ]
  ]
]

pub IsValid-claim :
    (l : Ledger) (now : ℕ) (self : String) (key : Option ℕ) (token : ℕ)
    → IsValid l
    → IsValid (claim l now self key token).1
unfolding claim
IsValid-claim l now self key token v =
    let l' = recover l now in
    let v' = IsValid-recover l now v in
    elim (Option-cases (first_of (is_due now self key) l'.rows)) [
      | inl e ↦ rw (e, claim) v'
      | inr (r, e) ↦
          let due = first_of_test (is_due now self key) l'.rows r e in
          let only = only_row l'.rows r v'.keys (Has-first_of _ l'.rows r e) in
          rw (e, claim)
            (IsValid-update (has_key r.event_key) (lease_row now token) l'
              (Steps-only r.event_key _ l'.rows r only (RowStep-lease now token r (ground arith)))
              v')
    ]

pub IsValid-release : (l : Ledger) (c : Claim) (now : ℕ) → IsValid l → IsValid (release l c now)
unfolding release
IsValid-release l c now v =
    IsValid-update _ (release_row now) l
      (Steps-all _ _ l.rows (λ r e. RowStep-release now r (ground arith))) v

pub IsValid-finish :
    (l : Ledger) (c : Claim) (outcome : Outcome) (now : ℕ) (receipt : List Char)
    → IsValid l
    → IsValid (finish l c outcome now receipt).1
unfolding finish
IsValid-finish l c outcome now receipt v =
    let mine = λ (r : Row). holds c r && is_sending r.status in
    elim (Option-cases (select mine l.rows)) [
      | inl e ↦ rw (e, finish) v
      | inr (r, e) ↦
          let hit = select_test mine l.rows r e in
          let key : r.event_key ≡ c.event_key = ground arith in
          let only =
            subst (λ k. All (λ s. has_key k s ≡ true → s ≡ r) l.rows) key
              (only_row l.rows r v.keys (Has-select mine l.rows r e)) in
          let step = RowStep-finish outcome now receipt r (ground arith) in
          rw (e, finish)
            (IsValid-update_attempts _ (is_attempt c.event_key r.attempt_count)
              (finish_attempt outcome now receipt) (λ a. refl) (λ a. refl)
              (IsValid-update (has_key c.event_key) (finish_row r outcome now receipt) l
                (Steps-only c.event_key _ l.rows r only step) v))
    ]

pub IsValid-abort_unsent :
    (l : Ledger) (c : Claim) (now : ℕ) → IsValid l → IsValid (abort_unsent l c now)
unfolding abort_unsent
IsValid-abort_unsent l c now v =
    let mine = λ (r : Row). holds c r && is_sending r.status in
    elim (Bool-cases (exists mine l.rows)) [
      | inl e ↦ rw e (
          IsValid-update_attempts _ (is_attempt c.event_key c.attempt_count) (abort_attempt now)
            (λ a. refl) (λ a. refl)
            (IsValid-update mine (abort_row now) l
              (Steps-all _ _ l.rows (λ r h. RowStep-abort now r (ground arith))) v))
      | inr e ↦ rw e v
    ]

pub IsValid-resolve :
    (l : Ledger) (alert : ℕ) (action : Action) (actor : List Char) (now : ℕ)
    → IsValid l
    → IsValid (resolve l alert action actor now).1
unfolding resolve
IsValid-resolve l alert action actor now v =
    let mine = λ (r : Row). r.alert_id == alert && is_unresolved r.status in
    elim (Option-cases (select mine l.rows)) [
      | inl e ↦ rw (e, resolve) v
      | inr (r, e) ↦
          let hit = select_test mine l.rows r e in
          let only = only_row l.rows r v.keys (Has-select mine l.rows r e) in
          let w =
            IsValid-update (has_key r.event_key) (resolve_row action now) l
              (Steps-only r.event_key _ l.rows r only (RowStep-resolve action now r (ground arith)))
              v in
          rw (e, resolve)
            (record { sound = w.sound; keys = w.keys; covered = w.covered; capacity = w.capacity })
    ]
