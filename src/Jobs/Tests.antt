-- ===== src/Jobs/Tests.antt =====
-- Queues of one and two jobs.
use qq_violation_bot.Prelude.{
  ◌≡◌, refl, Bool, true, false, none, some, [], ◌∷◌, String, arith, select, exists,
}
use qq_violation_bot.Jobs.Types.{
  Job, Queue, Scope, Settings, same_scope, private_facts, private_summary, private, running,
}
use qq_violation_bot.Jobs.Queue.{new_job, place_job, first_due}
use qq_violation_bot.Jobs.Work.{recover_expired_leases, claim_rows, claim_jobs, release_owned}
use qq_violation_bot.Jobs.Valid.{IsValid}
use qq_violation_bot.Jobs.Keep.{IsValid-place_job}
use qq_violation_bot.Jobs.Steps.{claimed, recovered, rest, more, Run-IsValid}
use qq_violation_bot.Jobs.Stuck.{IsStuck}
use qq_violation_bot.Jobs.Forever.{OnLastTry, released-OnLastTry-IsStuck}

abbrev settings : Settings
settings = record {
  lease_seconds = 300;
  max_attempts = 3;
  backoff_base_seconds = 60;
  relationship_debounce_seconds = 180;
  relationship_max_wait_seconds = 900;
  member_batch_delay_seconds = 600;
  member_batch_threshold = 20;
}

abbrev ann : Scope
ann = record {
  conversation_kind = private;
  group_id = none;
  user_id = "1001";
  persona_id = "default";
}

abbrev empty_queue : Queue
empty_queue = record { settings = settings; accepting = true; jobs = []; next_id = 1 }

abbrev two_jobs : Queue
two_jobs =
    (place_job (place_job empty_queue private_summary ann 7 1 100).1 private_facts ann 7 1 100).1

-- Of two jobs of one conversation one is claimed.
one_claimed : (claim_jobs two_jobs "w" 1000 2 (λ t. true)).0 ≡ 1 ∷ []
unfolding place_job new_job claim_jobs claim_rows select first_due same_scope
one_claimed = refl

abbrev any_id : String → Bool
any_id s = true

two_jobs-IsValid : IsValid two_jobs
two_jobs-IsValid =
    IsValid-place_job _ private_facts ann 7 1 100 (
      IsValid-place_job empty_queue private_summary ann 7 1 100 (record { sound = tt; apart = tt }))

Run-IsValid_example :
    IsValid (recover_expired_leases (claim_jobs two_jobs "w" 1000 2 (λ t. true)).1 5000)
Run-IsValid_example =
    Run-IsValid any_id any_id (more (more rest (claimed "w" 1000 2 (λ t. true))) (recovered 5000))
      two_jobs-IsValid

abbrev last_try : Job
last_try = record (new_job settings 1 private_summary ann 7 1 100) {
  status = running;
  attempts = 3;
  lease_owner = some "w";
  lease_expires_at = some 1300;
}

abbrev last_queue : Queue
last_queue = record { settings = settings; accepting = false; jobs = last_try ∷ []; next_id = 2 }

last_queue-OnLastTry : OnLastTry 1 "w" last_queue
unfolding new_job exists
last_queue-OnLastTry = record {
  old = omega arith;
  present = refl;
  last = ((λ h. (refl, omega arith)), tt);
}

released-OnLastTry-IsStuck_example : IsStuck 3 1 (
    recover_expired_leases
      (claim_jobs (release_owned last_queue "w" 1000) "v" 9000 5 (λ t. true)).1
      9999)
released-OnLastTry-IsStuck_example =
    released-OnLastTry-IsStuck any_id any_id 1 "w" 1000 last_queue-OnLastTry
      (more (more rest (claimed "v" 9000 5 (λ t. true))) (recovered 9999))
