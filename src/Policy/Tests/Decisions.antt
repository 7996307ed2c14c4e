-- ===== src/Policy/Tests/Decisions.antt =====
-- Decisions of an administrator about a stop, and a run of the scope's life that starts with one.
use qq_violation_bot.Prelude.{refl, none, some, [], ◌∷◌, arith}
use qq_violation_bot.Policy.Types.{Db, stop, pending_decision, stop_tag, external}
use qq_violation_bot.Policy.Invariant.{IsValid}
use qq_violation_bot.Policy.Manual.{clear_manual_stop}
use qq_violation_bot.Policy.Manual.Cleared.{ClearAnswer, clear_manual_stop-ClearAnswer}
use qq_violation_bot.Policy.Tests.{scope, policy, cycle}

-- A stop that is due with a good record.
abbrev stopped : Db
stopped = record scope {
  policy = some (record policy { policy_tag = stop_tag });
  cycles = record cycle { cycle_type = stop; status = pending_decision } ∷ [];
}

stopped-IsValid : IsValid stopped
stopped-IsValid = record {
  limit = omega arith;
  pointed = (λ _. refl, tt);
  due = (λ _. omega arith, tt);
  ids = (omega arith, omega arith);
}

clear_manual_stop-ClearAnswer_example :
    ClearAnswer stopped "good"
      (external "c")
      (clear_manual_stop stopped 9 "good" (external "c") none 0)
clear_manual_stop-ClearAnswer_example =
    clear_manual_stop-ClearAnswer stopped 9 "good" (external "c") none stopped-IsValid

-- A scope before its first event, and one with a stop that an administrator started.
abbrev empty_scope : Db
empty_scope = record scope { policy = none; cycles = []; next_cycle = 1 }
