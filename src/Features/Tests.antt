-- ===== src/Features/Tests.antt =====
-- Runs of the controller where an input is its number, and the theorems at concrete inputs.
use qq_violation_bot.Prelude.{
  ℕ, ◌≡◌, refl, true, false, not, ◌&&◌, ◌||◌, ◌==◌, Option, none, some, [], ◌∷◌, arith,
}
use qq_violation_bot.Features.Types.{
  Switch-discrete, FeatureState, Capabilities, business_enabled, llm_gateway_enabled,
  economy_mode_enabled, private_chat, group_chat, primary_unavailable,
}
use qq_violation_bot.Features.Lists.{elem}
use qq_violation_bot.Features.Files.{
  Controller, no_fault, at_file, start, open_state, replace_state, sorted_allowlist,
  positive_values,
}
use qq_violation_bot.Features.State.{
  set_switches, add_allowed, remove_allowed, allowlist, get_change, validate_switches, refused,
}
use qq_violation_bot.Features.Valid.{IsListed}
use qq_violation_bot.Features.Restart.{started, switched, added, Run-open_state}
use qq_violation_bot.Features.Model.{HasModel, set_switches-HasModel}
use qq_violation_bot.Features.Access.{add_allowed-remove_allowed, remove_allowed-add_allowed}

abbrev read : ℕ → Option ℕ
read n = some n

abbrev print : ℕ → ℕ
print n = n

abbrev defaults : FeatureState
defaults = record {
  switch = λ x. false;
  group_chat_allowed_group_ids = 7 ∷ 9 ∷ [];
  private_chat_allowed_user_ids = [];
  updated_at = "";
  updated_by = "";
}

abbrev caps : Capabilities
caps = record {
  business_capable = true;
  economy_provider_available = true;
  primary_provider_available = false;
  hive_member_monitor_capable = false;
  content_alert_capable = false;
  excluded_group_chat_ids = [];
}

-- A start without files.
abbrev fresh : Controller ℕ
fresh = record { capabilities = caps; state = defaults; file = none; backup = none }

defaults-IsListed : IsListed defaults
defaults-IsListed = record { groups = (omega arith, (omega arith, tt)); users = tt }

-- The gateway needs the primary provider or the economy mode.
gateway_refused :
    (set_switches read print no_fault fresh ((llm_gateway_enabled, true) ∷ []) "op" "t").0
    ≡ refused primary_unavailable
unfolding set_switches validate_switches get_change Switch-discrete
gateway_refused = refl

-- A group is added between the two, and removed.
added_between :
    allowlist group_chat (add_allowed read print no_fault fresh group_chat 8 "op" "t").1.state
    ≡ 7 ∷ 8 ∷ 9 ∷ []
unfolding add_allowed replace_state sorted_allowlist positive_values
added_between = refl

-- A change whose second write fails, after one that succeeds.
abbrev changed : Controller ℕ
changed =
    (set_switches read print at_file
      (add_allowed read print no_fault (start read print caps defaults none none) private_chat 5
        "op" "t").1
      ((business_enabled, true) ∷ []) "op" "t").1

Run-open_state_example :
    open_state read print changed.capabilities defaults changed.file changed.backup ≡ changed.state
Run-open_state_example =
    Run-open_state read print (λ n. refl) defaults defaults-IsListed
      (switched at_file ((business_enabled, true) ∷ []) "op" "t"
        (added no_fault private_chat 5 "op" "t" (started caps none none)))

set_switches-HasModel_example :
    HasModel
      (set_switches read print no_fault fresh
        ((llm_gateway_enabled, true) ∷ (economy_mode_enabled, true) ∷ [])
        "op"
        "t").1.capabilities
      (set_switches read print no_fault fresh
        ((llm_gateway_enabled, true) ∷ (economy_mode_enabled, true) ∷ [])
        "op"
        "t").1.state
set_switches-HasModel_example =
    set_switches-HasModel read print no_fault fresh
      ((llm_gateway_enabled, true) ∷ (economy_mode_enabled, true) ∷ []) "op" "t"
      (λ missing on. absurd (cc))

add_allowed-remove_allowed_example :
    (elem 9
        (allowlist group_chat (add_allowed read print no_fault fresh group_chat 8 "op" "t").1.state)
      ≡ (9 == 8 || elem 9 (allowlist group_chat fresh.state)))
    × (elem 9 (
          allowlist group_chat
            (remove_allowed read print no_fault fresh group_chat 8 "op" "t").1.state)
        ≡ (not (9 == 8) && elem 9 (allowlist group_chat fresh.state)))
add_allowed-remove_allowed_example =
    add_allowed-remove_allowed read print (λ n. refl) fresh group_chat 8 8 refl defaults-IsListed 9
      "op" "t"

remove_allowed-add_allowed_example :
    allowlist group_chat
      (remove_allowed read print no_fault
        (add_allowed read print no_fault fresh group_chat 8 "op" "t").1
        group_chat
        8
        "op"
        "u").1.state
    ≡ allowlist group_chat fresh.state
remove_allowed-add_allowed_example =
    remove_allowed-add_allowed read print (λ n. refl) fresh group_chat 8 8 refl defaults-IsListed
      "op" "t" "op" "u" refl
