-- ===== src/Policy/Records/Apply.antt =====
-- The part of process_violation_record that places a mute in the cycles keeps a scope well-formed.
use qq_violation_bot.Prelude.{
  ℕ, ◌≤◌, ◌≡◌, refl, sym, ap, ◌∙◌, Bool, true, false, ◌&&◌, Option, none, some, arith, All, All-map,
  All-append, All-select, select, select_test, Bool-cases, Option-cases, inl, inr, leb, ◌==◌,
  if-ind,
}
use qq_violation_bot.Policy.Types.{
  Db, Policy, Cycle, CycleType, Severity, final_warning, operation_limit, terminal_status,
  zero_count, is_terminal, is_last_warning, is_open, is_normal, is_normal_or_slow, NoCycleReason,
}
use qq_violation_bot.Policy.Count.{current_count}
use qq_violation_bot.Policy.Events.{ensure_policy_state}
use qq_violation_bot.Policy.Cycles.{
  active_cycle, active_cycle_id, find_open, has_id, set_no_cycle, start_cycle, open_cycle,
  cycle_row, raised_level,
}
use qq_violation_bot.Policy.Invariant.{
  IsValid, IsIdle, Closed, SameCore, op_count, IsValidFrom-SameCore, IsIdle-SameCore,
  IsIdle-IsValidFrom, cycles-update_policy,
}
use qq_violation_bot.Policy.Invariant.Keep.{
  SameCore-ensure, op_count-ensure, IsValidFrom-start_cycle, IsIdle-set_no_cycle,
  IsIdle-of_no_active, active_cycle-pointer, cycles-open_cycle, new_cycle,
}
use qq_violation_bot.Policy.Records.{with_warning, warning_start, mute_first, apply_mute}
use qq_violation_bot.Policy.Records.Keep.{
  IsValid-suggest, IsValid-mute_fixed, IsValid-mute_counted, IsValid-with_warning, IsValid-at_zero,
}

-- Every open cycle is of the type.
abbrev pub OpenOf : CycleType → Db → Type 0
OpenOf t db = All (λ c. is_open c.status ≡ true → c.cycle_type ≡ t) db.cycles

pub OpenOf-start_cycle :
    (db : Db) (t : CycleType) (start e sequence g : ℕ)
    → IsIdle db
    → OpenOf t (start_cycle db t start e sequence g).1
unfolding start_cycle
OpenOf-start_cycle db t start e sequence g v =
    let (policy, db') = ensure_policy_state db in
    if-ind (λ (r : Option ℕ × Db). OpenOf t r.1) (is_terminal db'.business.status)
      (λ _. refused terminal_status true)
      (λ _.
        if-ind (λ (r : Option ℕ × Db). OpenOf t r.1)
          (leb 5 policy.v102_operation_count && is_normal_or_slow t)
          (λ _. refused operation_limit false)
          (λ _.
            if-ind (λ (r : Option ℕ × Db). OpenOf t r.1)
              (current_count db'.business == 0 && is_normal t) (λ _. refused zero_count false)
              (λ _. opened (raised_level t policy.slow_level))))
  where
    none_open : OpenOf t (ensure_policy_state db).1
    none_open =
        All-map Closed _ _ (λ c h o. absurd (ground arith))
          (IsIdle-SameCore (SameCore-ensure db) v).closed

    refused :
        (why : NoCycleReason) (tag : Bool)
        → OpenOf t (set_no_cycle (ensure_policy_state db).1 why tag)
    refused why tag = unfold set_no_cycle in rw cycles-update_policy none_open

    opened :
        (level : ℕ) → OpenOf t (open_cycle (ensure_policy_state db).1 t start level e sequence g)
    opened level = rw cycles-open_cycle (
        All-append _ _ (new_cycle (ensure_policy_state db).1 t start level e sequence g) none_open
          (λ o. unfold new_cycle cycle_row in refl))

find_open-cycles : (o : Option ℕ) (a b : Db) → b.cycles ≡ a.cycles → find_open o b ≡ find_open o a
unfolding find_open
find_open-cycles none a b e = refl
find_open-cycles (some i) a b e = ap (select (λ (c : Cycle). has_id i c && is_open c.status)) e

pub active_cycle-SameCore : (a b : Db) → SameCore a b → active_cycle b ≡ active_cycle a
unfolding active_cycle
active_cycle-SameCore a b s =
    find_open-cycles (active_cycle_id b) a b s.cycles ∙ ap (λ o. find_open o a) s.pointer

found-OpenOf :
    (t : CycleType) (o : Option ℕ) (db : Db) (c : Cycle)
    → OpenOf t db
    → find_open o db ≡ some c
    → c.cycle_type ≡ t
unfolding find_open
found-OpenOf t none db c h e = absurd (cc)
found-OpenOf t (some i) db c h e =
    let test = λ (d : Cycle). has_id i d && is_open d.status in
    let hit = select_test test db.cycles c e in
    All-select (λ (d : Cycle). is_open d.status ≡ true → d.cycle_type ≡ t) test db.cycles c h e
      (ground arith)

active-OpenOf :
    (t : CycleType) (db : Db) (c : Cycle)
    → OpenOf t db
    → active_cycle db ≡ some c
    → c.cycle_type ≡ t
unfolding active_cycle
active-OpenOf t db c h e = found-OpenOf t (active_cycle_id db) db c h e

pub business-ensure : (db : Db) → (ensure_policy_state db).1.business ≡ db.business
unfolding ensure_policy_state
business-ensure db = ground arith

-- The final warning's cycle that is started late is none of the two counted types.
with_warning_room :
    (db : Db) (p : Policy) (at e g : ℕ) (c : Cycle)
    → IsValid db
    → ((d : Cycle) → active_cycle db ≡ some d → is_normal_or_slow d.cycle_type ≡ false)
    → active_cycle (with_warning db p at e g) ≡ some c
    → is_normal_or_slow c.cycle_type ≡ false
with_warning_room db p at e g c v room h = elim (Option-cases (active_cycle db)) [
  | inr (d, found) ↦ room c (rw (found, with_warning) at h)
  | inl none_ ↦ elim (Bool-cases (is_last_warning db.business.status)) [
    | inl last ↦
        let started : active_cycle (start_cycle db final_warning (warning_start db p at) e 0 g).1
            ≡ some c =
          rw (none_, last, with_warning) at h in
        let idle = IsIdle-of_no_active db v none_ in
        let type =
          active-OpenOf final_warning _ c
            (OpenOf-start_cycle db final_warning (warning_start db p at) e 0 g idle) started in
        ap is_normal_or_slow type
    | inr other ↦
        let still : active_cycle db ≡ some c = rw (none_, other, with_warning) at h in absurd (cc)
  ]
]

-- A mute on a well-formed scope, where a terminal status has no open cycle and at the limit of five
-- operations no normal or slow cycle is active, leaves the scope well-formed.
pub apply_mute-IsValid :
    (db : Db) (s : Severity) (e at ingested g : ℕ)
    → IsValid db
    → (is_terminal db.business.status ≡ true → IsIdle db)
    → ((c : Cycle)
        → 5 ≤ op_count db
        → active_cycle db ≡ some c
        → is_normal_or_slow c.cycle_type ≡ false)
    → IsValid (apply_mute db s e at ingested g).1
unfolding apply_mute mute_first
apply_mute-IsValid db s e at ingested g v terminal room =
    let (policy, db₁) = ensure_policy_state db in
    let same = SameCore-ensure db in
    let v₁ = IsValidFrom-SameCore same v in
    let db₂ = with_warning db₁ policy at e g in
    let v₂ = IsValid-with_warning db₁ policy at e g v₁ in
    let room₁ : (d : Cycle)
        → 5 ≤ op_count db
        → active_cycle db₁ ≡ some d
        → is_normal_or_slow d.cycle_type ≡ false =
      λ d five h. room d five (sym (active_cycle-SameCore db db₁ same) ∙ h) in
    let ops : policy.v102_operation_count ≡ op_count db = op_count-ensure db ∙ same.ops in
    elim (Bool-cases (is_terminal db₁.business.status)) [
      | inl ended ↦ rw ended (
          IsIdle-IsValidFrom 0 (
            IsIdle-set_no_cycle terminal_status true
              (IsIdle-SameCore same (terminal (rw (business-ensure db) at ended)))))
      | inr going ↦ rw going (elim (Option-cases (active_cycle db₂)) [
        | inl none_ ↦
            let idle = IsIdle-of_no_active db₂ v₂ none_ in
            rw none_ (elim (Bool-cases (leb 5 policy.v102_operation_count)) [
              | inl full ↦
                  rw full (IsIdle-IsValidFrom 0 (IsIdle-set_no_cycle operation_limit false idle))
              | inr free ↦ rw free (
                  IsValid-suggest _ s e _
                    (IsValid-at_zero (IsValidFrom-start_cycle db₂ _ at e 0 g idle)))
            ])
        | inr (c, found) ↦
            let p = active_cycle-pointer db₂ c found in
            rw found (elim (Bool-cases (is_normal_or_slow c.cycle_type)) [
              | inr fixed ↦ rw fixed (IsValid-mute_fixed db₂ c s e p v₂)
              | inl counted ↦ rw counted (elim (Bool-cases (leb 5 policy.v102_operation_count)) [
                | inr free ↦ rw free (IsValid-mute_counted db₂ c s _ e at ingested g p v₂)
                | inl full ↦
                    let five : 5 ≤ op_count db = ground arith in
                    let not_counted =
                      with_warning_room db₁ policy at e g c v₁ (λ d. room₁ d five) found in
                    absurd (cc)
              ])
            ])
      ])
    ]
