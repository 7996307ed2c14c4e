-- ===== src/Policy/Records/Keep.antt =====
-- A recorded mute keeps a scope well-formed.
use qq_violation_bot.Prelude.{
  ℕ, ◌+◌, ◌≡◌, refl, sym, ap, ◌∙◌, Bool, ◌&&◌, some, arith, Bool-cases, Option-cases, inl, inr, leb,
}
use qq_violation_bot.Policy.Types.{
  Db, Policy, Payload, Cycle, Severity, final_warning, stop_suggestion, remove_member,
  is_last_warning, is_normal, is_stop,
}
use qq_violation_bot.Policy.Events.{ensure_policy_state}
use qq_violation_bot.Policy.Cycles.{
  active_cycle, active_cycle_id, update_cycle, enter_slow, slow_row,
}
use qq_violation_bot.Policy.Settle.{await_decision}
use qq_violation_bot.Policy.Manual.{own_evaluation, wait_evaluation}
use qq_violation_bot.Policy.Invariant.{
  IsValid, IsValidFrom, SameCore, SameCore-trans, IsValidFrom-SameCore, IsValidFrom-weaken,
  IsValidFrom-update_cycle, SameCore-update_policy,
}
use qq_violation_bot.Policy.Invariant.Keep.{
  SameCore-insert_event, SameCore-ensure, SameCore-create_pending, IsValidFrom-start_cycle,
  IsIdle-of_no_active,
}
use qq_violation_bot.Policy.Review.{set_evaluation}
use qq_violation_bot.Policy.Records.{
  suggest, suggestion_reason, mute_fixed, is_bad_due_stop, count_fixed, count_row, extend_row,
  extend_slow, is_extended_now, mute_counted, with_warning, warning_start,
}

pub IsValid-at_zero : {t : ℕ} {db : Db} → IsValidFrom t db → IsValid db
IsValid-at_zero {t} v = IsValidFrom-weaken {t = t} (omega arith) v

SameCore-set_evaluation :
    (f : Payload → Payload) (i : ℕ) (db : Db) → SameCore db (set_evaluation f i db)
unfolding set_evaluation
SameCore-set_evaluation f i db = record { ops = refl; pointer = refl; cycles = refl; next = refl }

pub IsValid-suggest :
    (test : Bool) (s : Severity) (e : ℕ) (db : Db) → IsValid db → IsValid (suggest test s e db).1
IsValid-suggest test s e db v = elim (Bool-cases test) [
  | inl h ↦
      rw h (
        IsValidFrom-SameCore (SameCore-create_pending db stop_suggestion (suggestion_reason s) e) v)
  | inr h ↦ rw h v
]

-- An UPDATE of the open cycle.
IsValid-update_open :
    (db : Db) (i : ℕ) (f : Cycle → Cycle)
    → ((c : Cycle) → (f c).id ≡ c.id)
    → active_cycle_id db ≡ some i
    → IsValid db
    → IsValid (update_cycle i f db)
IsValid-update_open db i f keep e v =
    IsValidFrom-update_cycle 0 i f keep (λ c same open_. omega arith) e v

pointer-update_cycle :
    (db : Db) (i : ℕ) (f : Cycle → Cycle)
    → active_cycle_id (update_cycle i f db) ≡ active_cycle_id db
unfolding update_cycle
pointer-update_cycle db i f = refl

pub IsValid-mute_fixed :
    (db : Db) (c : Cycle) (s : Severity) (e : ℕ)
    → active_cycle_id db ≡ some c.id
    → IsValid db
    → IsValid (mute_fixed db c s e).1
unfolding mute_fixed
IsValid-mute_fixed db c s e p v =
    let db₀ = update_cycle c.id (count_fixed s) db in
    let db₁ = set_evaluation (own_evaluation c.id) e db₀ in
    let same = SameCore-set_evaluation (own_evaluation c.id) e db₀ in
    let v₁ =
      IsValidFrom-SameCore same (IsValid-update_open db c.id (count_fixed s) (λ d. refl) p v) in
    let p₁ = same.pointer ∙ pointer-update_cycle db c.id (count_fixed s) ∙ p in
    let pend = SameCore-create_pending db₁ remove_member "最后警告期间新增禁言，请管理判断是否移出" e in
    elim (Bool-cases (is_bad_due_stop c)) [
      | inl h ↦ rw h (IsValidFrom-SameCore (SameCore-set_evaluation (wait_evaluation c.id) e db) v)
      | inr h ↦ rw h (elim (Bool-cases (is_stop c.cycle_type)) [
        | inl h ↦ rw h v₁
        | inr h ↦ rw h (
            IsValid-update_open _ c.id await_decision (λ d. refl) (pend.pointer ∙ p₁)
              (IsValidFrom-SameCore pend v₁))
      ])
    ]

module _ (db : Db) (c : Cycle) (e at : ℕ) where
  -- Past the UPDATE of the row, entering the slow state touches nothing that the invariant reads.
  SameCore-enter_slow :
      SameCore
        (update_cycle c.id
          (slow_row ((ensure_policy_state db).0.slow_level + 1))
          (ensure_policy_state db).1)
        (enter_slow db c e at).1
  unfolding enter_slow
  SameCore-enter_slow =
      SameCore-trans (SameCore-insert_event _ _)
        (SameCore-update_policy _ _ (λ p. refl) (λ p. refl))

  pointer-enter_slow : active_cycle_id (enter_slow db c e at).1 ≡ active_cycle_id db
  pointer-enter_slow =
      SameCore-enter_slow.pointer ∙ pointer-update_cycle _ c.id _ ∙ (SameCore-ensure db).pointer

  IsValid-enter_slow :
      active_cycle_id db ≡ some c.id → IsValid db → IsValid (enter_slow db c e at).1
  unfolding slow_row
  IsValid-enter_slow p v = IsValidFrom-SameCore SameCore-enter_slow (
      IsValid-update_open _ c.id _ (λ d. refl) ((SameCore-ensure db).pointer ∙ p)
        (IsValidFrom-SameCore (SameCore-ensure db) v))

  id-enter_slow : (enter_slow db c e at).0.id ≡ c.id
  unfolding enter_slow slow_row
  id-enter_slow = refl

IsValid-extend_slow :
    (db : Db) (c : Cycle) (e at ingested g : ℕ)
    → active_cycle_id db ≡ some c.id
    → IsValid db
    → IsValid (extend_slow db c e at ingested g).1
unfolding extend_slow
IsValid-extend_slow db c e at ingested g p v = elim (Bool-cases (is_extended_now c)) [
  | inl h ↦ rw h (
      IsValidFrom-SameCore (SameCore-insert_event _ _)
        (IsValid-update_open db c.id extend_row (λ d. refl) p v))
  | inr h ↦ rw h v
]

pub IsValid-mute_counted :
    (db : Db) (c : Cycle) (s : Severity) (current e at ingested g : ℕ)
    → active_cycle_id db ≡ some c.id
    → IsValid db
    → IsValid (mute_counted db c s current e at ingested g).1
unfolding mute_counted
IsValid-mute_counted db c s current e at ingested g p v =
    let c₁ = count_row s c in
    let db₁ = update_cycle c.id (count_row s) db in
    let p₁ : active_cycle_id db₁ ≡ some c₁.id = pointer-update_cycle db c.id (count_row s) ∙ p in
    let v₁ = IsValid-update_open db c.id (count_row s) (λ d. refl) p v in
    elim (Bool-cases (is_normal c₁.cycle_type && leb 3 current)) [
      | inl h ↦
          let p₂ =
            pointer-enter_slow db₁ c₁ e at ∙ p₁ ∙ ap some (sym (id-enter_slow db₁ c₁ e at)) in
          rw h (
            IsValid-suggest _ s e _
              (IsValid-extend_slow _ _ e at ingested g p₂ (IsValid-enter_slow db₁ c₁ e at p₁ v₁)))
      | inr h ↦ rw h (IsValid-suggest _ s e _ (IsValid-extend_slow db₁ c₁ e at ingested g p₁ v₁))
    ]

pub IsValid-with_warning :
    (db : Db) (p : Policy) (at e g : ℕ) → IsValid db → IsValid (with_warning db p at e g)
IsValid-with_warning db p at e g v = elim (Option-cases (active_cycle db)) [
  | inr (c, found) ↦ rw (found, with_warning) v
  | inl none_ ↦
      rw (none_, with_warning)
        (elim (Bool-cases (is_last_warning db.business.status)) [
          | inl h ↦ rw h (
              IsValid-at_zero (
                IsValidFrom-start_cycle db final_warning (warning_start db p at) e 0 g
                  (IsIdle-of_no_active db v none_)))
          | inr h ↦ rw h v
        ])
]
