-- ===== src/Outbox/Once.antt =====
-- A lease starts one send; a rejected send is retried later or given up; an abandoned lease is taken
-- over.
use Prim.Native.Char.{Char}
use Prim.Native.Nat.{min}
use text.Mathlib.TextPositions.{eq_refl}
use native.Mathlib.Nat.{one-le-pow}
use qq_violation_bot.Prelude.{
  ℕ, ◌+◌, ◌-◌, ◌≤◌, ◌<◌, ◌≡◌, refl, ap, subst, ◌⊎◌, Bool, true, false, ◌&&◌, some, List, [], ◌∷◌,
  ◌++◌, arith, All, All-update, select, select_test, exists, update, leb, if◌then◌else◌, Bool-cases,
  Option-cases, inl, inr, Result, ok, raise,
}
use qq_violation_bot.Outbox.Types.{
  Row, Ledger, Claim, pending, exhausted, was_rejected, is_sending, is_leased,
}
use qq_violation_bot.Outbox.Ops.{
  Error, duplicate_attempt, begin_send, finish, claim, recover, has_key, holds, may_send, send_row,
  finish_row, retry_delay, new_attempt, is_attempt, attempt_count_of, is_due, first_of, before,
  free_row, abandoned, interrupted, interrupted_row, lease_ended,
}
use qq_violation_bot.Outbox.Valid.{
  IsValid, IsSound, Steps-all, Steps-only, Has, Has-select, All-Has, only_row, find-Has,
  find-update,
}
use qq_violation_bot.Outbox.Keep.{RowStep-finish, RowStep-free, RowStep-interrupted, first_of_test}
use qq_violation_bot.Outbox.Settled.{find}
use qq_violation_bot.Outbox.Send.{exists-select}

retry_delay_bounds : (n : ℕ) → (5 ≤ retry_delay n) × (retry_delay n ≤ 300)
unfolding retry_delay
retry_delay_bounds n = let p = one-le-pow (min (n - 1) 6) 2 (omega arith) in omega arith

no_send :
    (test : Row → Bool) (rows : List Row)
    → All (λ r. test r ≡ false) rows
    → exists test rows ≡ false
unfolding exists
no_send test [] h = refl
no_send test (r ∷ rs) h = rw (h.0) (no_send test rs h.1)

-- After the UPDATE of begin_send no row of the claim's key is leased.
sent_row :
    (l : Ledger) (c c' : Claim) (now now' : ℕ) (r : Row)
    → IsValid l
    → c'.event_key ≡ c.event_key
    → select (may_send c now) l.rows ≡ some r
    → exists (may_send c' now') (update (may_send c now) (send_row now) l.rows) ≡ false
sent_row l c c' now now' r v same e =
    let hit = select_test (may_send c now) l.rows r e in
    let only = only_row l.rows r v.keys (Has-select _ l.rows r e) in
    no_send (may_send c' now') _ (
      All-update _ (λ t. may_send c' now' t ≡ false) (may_send c now) (send_row now) l.rows
        (λ t h. elim (Bool-cases (may_send c now t)) [
          | inl yes_ ↦ rw yes_ (ground arith)
          | inr no_ ↦ rw no_ (elim (Bool-cases (may_send c' now' t)) [
            | inr none_ ↦ none_
            | inl some_ ↦
                let one : t ≡ r = h (ground arith) in
                absurd (cc (hit, no_, ap (may_send c now) one))
          ])
        ])
        only)

abbrev Sent : Type 0
Sent = Result Error (Bool × Claim × Ledger)

-- A lease starts one send: on a well-formed ledger, after a `begin_send` that said yes, another one
-- of the same claim says no at every time, and changes nothing.
pub begin_send_once :
    (l l' : Ledger) (c c' : Claim) (now now' : ℕ)
    → IsValid l
    → begin_send l c now ≡ ok (true, c', l')
    → begin_send l' c' now' ≡ ok (false, c', l')
unfolding begin_send
begin_send_once l l' c c' now now' v e = elim (Bool-cases (exists (may_send c now) l.rows)) [
  | inr idle ↦
      let e' : ◌≡◌ {A = Sent} (ok (false, c, l)) (ok (true, c', l')) = rw idle at e in absurd (cc)
  | inl some_ ↦
      let (r, found) = exists-select (may_send c now) l.rows some_ in
      let rows = update (may_send c now) (send_row now) l.rows in
      let n = attempt_count_of c.event_key rows in
      let c₂ : Claim = record c { attempt_count = n } in
      let l₂ : Ledger = record l {
        rows = rows;
        attempts = l.attempts ++ new_attempt c.event_key n now ∷ [];
      } in
      elim (Bool-cases (exists (is_attempt c.event_key n) l.attempts)) [
        | inl twice ↦
            let e' : ◌≡◌ {A = Sent} (raise duplicate_attempt) (ok (true, c', l')) =
              rw (some_, twice) at e in
            absurd (cc)
        | inr new ↦
            let e' : ◌≡◌ {A = Sent} (ok (true, c₂, l₂)) (ok (true, c', l')) =
              rw (some_, new) at e in
            let idle : begin_send l₂ c₂ now' ≡ ok (false, c₂, l₂) =
              rw (sent_row l c c₂ now now' r v refl found) refl in
            let same_claim : c₂ ≡ c' = cc in
            let same_ledger : l₂ ≡ l' = cc in
            subst (λ (x : Claim). begin_send l' x now' ≡ ok (false, x, l')) same_claim
              (subst (λ (y : Ledger). begin_send y c₂ now' ≡ ok (false, c₂, y)) same_ledger idle)
      ]
]

-- A definite rejection: the row waits for 5 to 300 more time units and has attempts left, or it is
-- exhausted and has none.
pub finish_rejected :
    (l : Ledger) (c : Claim) (now : ℕ) (receipt : List Char) (r : Row)
    → IsValid l
    → select (λ (s : Row). holds c s && is_sending s.status) l.rows ≡ some r
    → (s : Row) × (find (finish l c was_rejected now receipt).1 c.event_key ≡ some s)
      × (((s.status ≡ pending)
            × (s.attempt_count < s.attempt_limit)
            × (now + 5 ≤ s.next_attempt_at)
            × (s.next_attempt_at ≤ now + 300))
          ⊎ ((s.status ≡ exhausted) × (s.attempt_count ≡ s.attempt_limit)))
unfolding finish finish_row
finish_rejected l c now receipt r v e =
    let hit = select_test (λ (s : Row). holds c s && is_sending s.status) l.rows r e in
    let m = Has-select _ l.rows r e in
    let only = only_row l.rows r v.keys m in
    let key : r.event_key ≡ c.event_key = ground arith in
    let step = RowStep-finish was_rejected now receipt r (ground arith) in
    let s = finish_row r was_rejected now receipt r in
    let sound = All-Has IsSound l.rows r v.sound m in
    let there =
      find-update (has_key r.event_key) (finish_row r was_rejected now receipt) r.event_key l.rows r
        (Steps-only r.event_key _ l.rows r only step) (find-Has l.rows r m only) in
    let self : has_key r.event_key r ≡ true = ground arith in
    let found : select (has_key r.event_key)
          (update (has_key r.event_key) (finish_row r was_rejected now receipt) l.rows)
        ≡ some s =
      rw self at there in
    let final : find (finish l c was_rejected now receipt).1 c.event_key ≡ some s =
      rw (e, finish)
        (subst
          (λ k.
            select (has_key k) (update (has_key k) (finish_row r was_rejected now receipt) l.rows)
            ≡ some s)
          key found) in
    elim (Bool-cases (leb r.attempt_limit r.attempt_count)) [
      | inl full ↦ (s, final, inr (ground arith, ground arith))
      | inr room ↦ (
        s,
        final,
        inl (
          ground arith,
          ground arith,
          ground (arith, retry_delay_bounds r.attempt_count),
          ground (arith, retry_delay_bounds r.attempt_count),
        ),
      )
    ]

exists_first :
    (test : Row → Bool) (rs : List Row) (r : Row)
    → Has r rs
    → test r ≡ true
    → (s : Row) × (first_of test rs ≡ some s)
unfolding first_of
exists_first test [] r m e = elim m [ ]
exists_first test (s ∷ rs) r (inl same) e = elim (Option-cases (first_of test rs)) [
  | inl none_ ↦ (s, ground (arith, ap test same))
  | inr (t, found) ↦ (if before s t then s else t, ground (arith, ap test same))
]
exists_first test (s ∷ rs) r (inr m) e =
    let (t, found) = exists_first test rs r m e in
    (if test s then (if before s t then s else t) else t, ground arith)

-- A report whose lease was abandoned is claimed again: on a well-formed ledger, when the lease of a
-- leased row has ended and its next attempt is due, a claim for its key gets it.
pub claim_abandoned :
    (l : Ledger) (now k token : ℕ) (r : Row)
    → IsValid l
    → find l k ≡ some r
    → is_leased r.status ≡ true
    → lease_ended now r ≡ true
    → r.next_attempt_at ≤ now
    → (c : Claim) × ((claim l now r.self_id (some k) token).0 ≡ some c) × (c.event_key ≡ k)
unfolding claim
claim_abandoned l now k token r v h leased ended due =
    let lost : abandoned now r ≡ true = ground arith in
    let key : has_key k r ≡ true = select_test (has_key k) l.rows r h in
    let freed : select (has_key k) (update (abandoned now) (free_row now) l.rows)
        ≡ some (free_row now r) =
      rw lost at (
        find-update (abandoned now) (free_row now) k l.rows r
          (Steps-all _ _ l.rows (λ s e. RowStep-free now s (ground arith))) h) in
    let there : select (has_key k) (recover l now).rows ≡ some (free_row now r) =
      unfold recover in
      find-update (interrupted now) (interrupted_row now) k _ (free_row now r)
        (Steps-all _ _ _ (λ s e. RowStep-interrupted now s (ground arith))) freed in
    let test = is_due now r.self_id (some k) in
    let fits : test (free_row now r) ≡ true = ground (arith, eq_refl r.self_id) in
    let (s, found) =
      exists_first test (recover l now).rows (free_row now r) (Has-select _ _ _ there) fits in
    let hit = first_of_test test (recover l now).rows s found in
    (
      record { event_key = s.event_key; lease_token = token; attempt_count = s.attempt_count },
      rw (found, claim) refl,
      ground arith,
    )
