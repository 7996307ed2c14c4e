-- ===== src/Policy/Count.antt =====
-- The count of a member's effective violations and its projection onto member_group_states:
-- raw_effective_record_summary, baseline_adjustment, effective_record_summary, sync_count_state.
use Prim.Native.Nat.{max}
use qq_violation_bot.Prelude.{
  ℕ, ◌-◌, Bool, true, not, ◌&&◌, ◌||◌, Option, none, some, List, [], ◌∷◌, ℤ, pos, ◌+ℤ◌, pos_part,
  ltb, leb, ◌==◌, if◌then◌else◌,
}
use qq_violation_bot.Policy.Types.{ViolationRecord, Business, Db}

-- The optional arguments `through_time` and `through_record_id`.
pub data Cutoff : Type 0 where
  all_records : Cutoff
  through : ℕ → Cutoff
  through_record : ℕ → ℕ → Cutoff

-- is_withdrawn=0 AND is_test=0 AND is_countable=1
unfoldable pub is_effective : ViolationRecord → Bool
is_effective r = not r.is_withdrawn && (not r.is_test && r.is_countable)

-- The clause `cutoff_sql`.
unfoldable pub in_cutoff : Cutoff → ViolationRecord → Bool
in_cutoff all_records r = true
in_cutoff (through t) r = leb r.violation_time t
in_cutoff (through_record t i) r = ltb r.violation_time t || (r.violation_time == t && leb r.id i)

unfoldable pub is_counted : Cutoff → ViolationRecord → Bool
unfolding is_effective in_cutoff
is_counted cut r = is_effective r && in_cutoff cut r

-- COALESCE(SUM(count_delta), 0)
unfoldable pub sum_deltas : Cutoff → List ViolationRecord → ℤ
unfolding is_counted ◌+ℤ◌
sum_deltas cut [] = pos 0
sum_deltas cut (r ∷ rs) =
    let rest = sum_deltas cut rs in if is_counted cut r then r.count_delta +ℤ rest else rest

later : Option ℕ → ℕ → Option ℕ
later none t = some t
later (some u) t = some (max u t)

-- MAX(violation_time)
unfoldable pub max_time : Cutoff → List ViolationRecord → Option ℕ
unfolding is_counted later
max_time cut [] = none
max_time cut (r ∷ rs) =
    let rest = max_time cut rs in if is_counted cut r then later rest r.violation_time else rest

unfoldable pub baseline_adjustment : Db → ℤ
baseline_adjustment db = elim db.policy [ none ↦ pos 0 | some p ↦ p.baseline_adjustment ]

-- The first component of effective_record_summary: `max(0, …)` is the positive part.
unfoldable pub effective_total : Db → Cutoff → ℕ
unfolding sum_deltas baseline_adjustment
effective_total db cut = pos_part (sum_deltas cut db.records +ℤ baseline_adjustment db)

-- The kept `last_effective_violation_time` when no counted record is left but a total is.
unfoldable pub projected_time : Option ℕ → ℕ → Option ℕ → Option ℕ
projected_time none total old = if ltb 0 total then old else none
projected_time (some t) total old = some t

unfoldable pub sync_count_state : Db → Cutoff → Db
sync_count_state db cut =
    let b = db.business in
    let total = effective_total db cut in
    record db {
      business = record b {
        total_count = total;
        current_count_cache = total - b.deduct_count;
        last_effective_violation_time =
            projected_time (max_time cut db.records) total b.last_effective_violation_time;
      };
    }

-- `max(0, total_count - deduct_count)`, which every operation computes from the stored row.
abbrev pub current_count : Business → ℕ
current_count b = b.total_count - b.deduct_count
