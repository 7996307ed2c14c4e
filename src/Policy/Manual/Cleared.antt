-- ===== src/Policy/Manual/Cleared.antt =====
-- What clear_manual_stop asks for, and what it leaves.
use qq_violation_bot.Prelude.{
  ℕ, ◌+◌, ◌-◌, ◌≤◌, ◌<◌, ◌≡◌, refl, ◌∙◌, true, false, Option, none, some, String, arith, ◌⊎◌,
  Bool-cases, Option-cases, inl, inr, if◌then◌else◌,
}
use qq_violation_bot.Policy.Types.{
  Event, Db, Policy, Cycle, Key, PolicyOutcome, normal, manual_stop_cleared, manual_payload,
}
use qq_violation_bot.Policy.Count.{all_records, effective_total, baseline_adjustment}
use qq_violation_bot.Policy.Events.{NewEvent, insert_event, find_event, policy_scope_under_review}
use qq_violation_bot.Policy.Cycles.{apply_reduction}
use qq_violation_bot.Policy.Invariant.{IsValid, op_count, IsValidFrom-SameCore}
use qq_violation_bot.Policy.Invariant.Keep.{SameCore-insert_event}
use qq_violation_bot.Policy.Reduction.{before_lem, apply_reduction_exact}
use qq_violation_bot.Policy.Records.Apply.{OpenOf}
use qq_violation_bot.Policy.Manual.{
  Result, ok, raise, under_review, empty_reason, no_due_stop, bad_evaluation, stop_not_allowed,
  already_stopped, no_suggestion, no_next_cycle, is_blank, decision_event, due_stop, is_good_stop,
  clear_stop, clear_manual_stop, outcome,
}
use qq_violation_bot.Policy.Manual.Keep.{IsValid-clear_stop, due_stop-pointer}
use qq_violation_bot.Policy.Manual.Restart.{
  business-insert_event, business-clear_stop, OpenOf-clear_stop,
}

good_counts : (c : Cycle) → is_good_stop c ≡ true → (c.light_count ≤ 1) × (c.severe_count ≡ 0)
unfolding is_good_stop
good_counts c h = ground arith

-- The count of a scope: its effective total less what was deducted.
abbrev pub count_of : Db → ℕ
count_of db = effective_total db all_records - db.business.deduct_count

-- What a reduction by one makes of the deductions of a scope.
abbrev pub ReducedByOne : Db → ℕ → Type 0
ReducedByOne db deducted =
    (deducted ≡ db.business.deduct_count + 1) × (1 ≤ count_of db) × (op_count db < 5)
    ⊎ (deducted ≡ db.business.deduct_count) × ((count_of db < 1) ⊎ (5 ≤ op_count db))

ReducedByOne-apply_reduction :
    (db : Db) (p : Policy)
    → db.policy ≡ some p
    → ReducedByOne db (apply_reduction db 1 all_records).1.business.deduct_count
ReducedByOne-apply_reduction db p has =
    let (made, deducted, _, _) = apply_reduction_exact db p has 1 all_records in
    let before = before_lem db p has 1 all_records in
    elim made [
      | inl (one, enough, room) ↦
          inl (omega (arith, deducted, one), omega (arith, before, enough), room)
      | inr (zero_, inl few) ↦
          inr (omega (arith, deducted, zero_), inl (omega (arith, before, few)))
      | inr (zero_, inr full) ↦ inr (omega (arith, deducted, zero_), inr full)
    ]

module _ (db : Db) (e : NewEvent) where
  effective_total-insert_event :
      effective_total (insert_event db e).2 all_records ≡ effective_total db all_records
  unfolding insert_event effective_total baseline_adjustment
  effective_total-insert_event = ground arith

  policy-insert_event : (insert_event db e).2.policy ≡ db.policy
  unfolding insert_event
  policy-insert_event = ground arith

  inserted_new : find_event db e.idempotency_key ≡ none → (insert_event db e).1 ≡ true
  unfolding insert_event
  inserted_new h = rw (h, insert_event) refl

  inserted_known :
      (old : Event)
      → find_event db e.idempotency_key ≡ some old
      → insert_event db e ≡ (old.id, false, db)
  unfolding insert_event
  inserted_known old h = rw (h, insert_event) refl

  -- An event does not touch the count.
  ReducedByOne-insert_event : (n : ℕ) → ReducedByOne (insert_event db e).2 n → ReducedByOne db n
  ReducedByOne-insert_event n h =
      rw
        (effective_total-insert_event, business-insert_event db e, (SameCore-insert_event db e).ops)
        at h

due_stop-policy : (db : Db) (c : Cycle) → due_stop db ≡ some c → (p : Policy) × (db.policy ≡ some p)
due_stop-policy db c h = elim (Option-cases db.policy) [
  | inr found ↦ found
  | inl none_ ↦ let p = due_stop-pointer db c h in absurd (ground arith)
]

-- What a cleared stop leaves: a well-formed scope whose open cycle, where there is one, is normal,
-- and a count that was reduced by one where the limits allowed it.
abbrev pub IsCleared : Db → Key → PolicyOutcome × Db → Type 0
IsCleared db key r =
    (find_event db key ≡ none)
    × (r.0.changed ≡ true)
    × IsValid r.1
    × OpenOf normal r.1
    × ReducedByOne db r.1.business.deduct_count

-- Under a known key the answer is the known event, and the scope is as it was.
abbrev pub IsRepeated : Db → Key → PolicyOutcome × Db → Type 0
IsRepeated db key r =
    (old : Event) × (find_event db key ≡ some old) × (r ≡ (outcome old.id false, db))

-- What each answer to an administrator says of the scope.
abbrev pub ClearAnswer : Db → String → Key → Result (PolicyOutcome × Db) → Type 0
ClearAnswer db why key (ok r) =
    (policy_scope_under_review db ≡ false)
    × (is_blank why ≡ false)
    × ((c : Cycle) × (due_stop db ≡ some c) × (c.light_count ≤ 1) × (c.severe_count ≡ 0))
    × (IsCleared db key r ⊎ IsRepeated db key r)
ClearAnswer db why key (raise under_review) = policy_scope_under_review db ≡ true
ClearAnswer db why key (raise empty_reason) = is_blank why ≡ true
ClearAnswer db why key (raise no_due_stop) = due_stop db ≡ none
ClearAnswer db why key (raise bad_evaluation) =
    (c : Cycle) × (due_stop db ≡ some c) × ((1 < c.light_count) ⊎ (0 < c.severe_count))
ClearAnswer db why key (raise stop_not_allowed) = ⊥
ClearAnswer db why key (raise already_stopped) = ⊥
ClearAnswer db why key (raise no_suggestion) = ⊥
ClearAnswer db why key (raise no_next_cycle) = ⊥

bad_counts : (c : Cycle) → is_good_stop c ≡ false → (1 < c.light_count) ⊎ (0 < c.severe_count)
unfolding is_good_stop
bad_counts c h = ground arith

module _ (db : Db) (c : Cycle) (at : ℕ) (why : String) (ev : NewEvent) (v : IsValid db)
    (here : due_stop db ≡ some c) where
  -- A decision under a new key.
  IsCleared-clear_stop :
      find_event db ev.idempotency_key ≡ none
      → IsCleared db ev.idempotency_key (
        outcome (insert_event db ev).0 true,
        clear_stop (insert_event db ev).2 c at why (insert_event db ev).0 0,
      )
  IsCleared-clear_stop fresh =
      let same = SameCore-insert_event db ev in
      let pointer = same.pointer ∙ due_stop-pointer db c here in
      let v₁ = IsValidFrom-SameCore same v in
      let (p, has) = due_stop-policy db c here in
      let counted =
        ReducedByOne-insert_event db ev _
          (ReducedByOne-apply_reduction _ p (policy-insert_event db ev ∙ has)) in
      let kept = business-clear_stop (insert_event db ev).2 c at why (insert_event db ev).0 0 in
      (
        fresh,
        refl,
        IsValid-clear_stop _ c at why _ 0 v₁ pointer,
        OpenOf-clear_stop _ c at why _ 0 v₁ pointer,
        rw kept counted,
      )

-- On a well-formed scope an administrator's clear_manual_stop raises only what holds of the scope: a
-- review is open, the reason is blank, no stop awaits its decision, or the stop that does has more
-- than one light or a severe violation. Otherwise it returns. Under a new key the scope is then
-- well-formed, an open cycle can only be normal, and the deductions grew by one where the count was
-- at least one and fewer than five operations were recorded; under a known key nothing changed.
pub clear_manual_stop-ClearAnswer :
    (db : Db) (at : ℕ) (why : String) (key : Key) (by : Option ℕ)
    → IsValid db
    → ClearAnswer db why key (clear_manual_stop db at why key by 0)
unfolding clear_manual_stop decision_event
clear_manual_stop-ClearAnswer db at why key by v =
    elim (Bool-cases (policy_scope_under_review db)) [
      | inl open_ ↦ rw open_ open_
      | inr clear ↦ rw clear (elim (Bool-cases (is_blank why)) [
        | inl blank ↦ rw blank blank
        | inr given ↦ rw given (elim (Option-cases (due_stop db)) [
          | inl none_ ↦ rw (none_, clear_manual_stop) none_
          | inr (c, here) ↦ rw (here, clear_manual_stop) (decided clear given c here)
        ])
      ])
    ]
  where
    decided :
        policy_scope_under_review db ≡ false
        → is_blank why ≡ false
        → (c : Cycle) → due_stop db ≡ some c
        → ClearAnswer db why key (
            let ev =
              decision_event manual_stop_cleared at 0 key (manual_payload why (some c.id)) by 0 in
            if is_good_stop c
            then (let (e, created, db₁) = insert_event db ev in
                if created
                then ok (outcome e true, clear_stop db₁ c at why e 0)
                else ok (outcome e false, db₁))
            else raise bad_evaluation)
    decided clear given c here =
        let ev =
          decision_event manual_stop_cleared at 0 key (manual_payload why (some c.id)) by 0 in
        elim (Bool-cases (is_good_stop c)) [
          | inr bad ↦ rw bad (c, here, bad_counts c bad)
          | inl good ↦
              let (few, no_severe) = good_counts c good in
              rw good (elim (Option-cases (find_event db key)) [
                | inl fresh ↦
                    let made = inserted_new db ev fresh in
                    rw made (
                      clear,
                      given,
                      (c, here, few, no_severe),
                      inl (IsCleared-clear_stop db c at why ev v here fresh),
                    )
                | inr (old, known) ↦
                    let same = inserted_known db ev old known in
                    rw same (clear, given, (c, here, few, no_severe), inr (old, known, refl))
              ])
        ]
