-- ===== src/Admission/Tests.antt =====
-- Turns of one conversation.
use qq_violation_bot.Prelude.{◌≡◌, refl, false, none, some, [], arith, select}
use qq_violation_bot.Admission.Turns.{Admission, begin_turn, end_turn, drained, drop_task, release}
use qq_violation_bot.Admission.Counts.{count_key}
use qq_violation_bot.Admission.Capacity.{
  IsCounted, rest, more, begun, ended, finished, Run-IsCounted,
}

abbrev idle : Admission
idle = record { pending = []; tasks = []; next_id = 0 }

abbrev four : Admission
four = (begin_turn (begin_turn (begin_turn (begin_turn idle "g").1 "g").1 "g").1 "g").1

-- A fifth turn of a conversation is rejected.
fifth : (begin_turn four "g").0 ≡ none
unfolding begin_turn
fifth = refl

-- A turn that is out of time keeps its slot until its task has drained.
kept : (begin_turn (end_turn four 0 false) "g").0 ≡ none
unfolding begin_turn end_turn select drop_task
kept = refl

freed : (begin_turn (drained (end_turn four 0 false) 0) "g").0 ≡ some 4
unfolding begin_turn end_turn drained select drop_task release
freed = refl

idle-IsCounted : IsCounted idle
unfolding count_key
idle-IsCounted = record {
  counts = λ key. refl;
  whole = refl;
  unique = tt;
  within = omega arith;
  within_key = λ key. omega arith;
}

Run-IsCounted_example : IsCounted (drained (end_turn (begin_turn idle "g").1 0 false) 0)
Run-IsCounted_example =
    Run-IsCounted (more (more (more rest (begun "g")) (ended 0 false)) (finished 0)) idle-IsCounted
