-- ===== src/Features/State.antt =====
-- The operations of FeatureController. The time and the actor of a change are arguments.
use mathlib.Core.Logic.{ite}
use qq_violation_bot.Prelude.{
  ℕ, Bool, true, false, not, ◌&&◌, ◌||◌, Option, none, some, List, [], ◌∷◌, ◌++◌, map, String, ◌==◌,
  if◌then◌else◌,
}
use qq_violation_bot.Features.Types.{
  Switch, Switch-discrete, AllowlistKind, group_chat, private_chat, Domain, vision, private_memory,
  member_memory, chat, business, FeatureState, Capabilities, FeatureError, no_changes,
  business_unavailable, economy_unavailable, hive_unavailable, alert_unavailable,
  primary_unavailable, not_positive, business_enabled, chat_enabled, group_chat_enabled,
  private_chat_enabled, llm_gateway_enabled, llm_gateway_vision_enabled,
  llm_gateway_private_memory_enabled, llm_gateway_member_memory_enabled, llm_gateway_chat_enabled,
  llm_gateway_business_enabled, economy_mode_enabled, hive_member_monitor_enabled,
  content_alert_enabled,
}
use qq_violation_bot.Features.Lists.{elem, remove_id}
use qq_violation_bot.Features.Files.{
  Controller, Fault, as_positive_int, sorted_allowlist, replace_state,
}

-- changes.get(name)
unfoldable pub get_change : Switch → List (Switch × Bool) → Option Bool
get_change x [] = none
get_change x ((y, b) ∷ changes) =
    let rest = get_change x changes in ite (Switch-discrete x y) (some b) rest

-- changes.get(name, old)
abbrev pub or_old : Option Bool → Bool → Bool
or_old none old = old
or_old (some b) old = b

abbrev pub is_change : Option Bool → Bool
is_change none = false
is_change (some b) = true

-- `changes.get(name) is False`
abbrev pub turns_off : Option Bool → Bool
turns_off (some false) = true
turns_off _ = false

-- _validate_switch: the error it raises.
abbrev pub validate_switch : Capabilities → Switch → Bool → Option FeatureError
validate_switch caps x false = none
validate_switch caps business_enabled true =
    if caps.business_capable then none else some business_unavailable
validate_switch caps llm_gateway_business_enabled true =
    if caps.business_capable then none else some business_unavailable
validate_switch caps economy_mode_enabled true =
    if caps.economy_provider_available then none else some economy_unavailable
validate_switch caps hive_member_monitor_enabled true =
    if caps.hive_member_monitor_capable then none else some hive_unavailable
validate_switch caps content_alert_enabled true =
    if caps.content_alert_capable then none else some alert_unavailable
validate_switch caps _ true = none

unfoldable pub validate_switches : Capabilities → List (Switch × Bool) → Option FeatureError
validate_switches caps [] = none
validate_switches caps ((x, b) ∷ changes) =
    let rest = validate_switches caps changes in
    elim (validate_switch caps x b) [ some e ↦ some e | none ↦ rest ]

-- disabling_only_available_chat_model
abbrev pub disables_chat_model : FeatureState → List (Switch × Bool) → Bool
disables_chat_model s changes =
    turns_off (get_change economy_mode_enabled changes)
    && (s.switch economy_mode_enabled && not (turns_off (get_change llm_gateway_enabled changes)))

-- enabling_primary_gateway_without_provider
abbrev pub enables_primary : FeatureState → List (Switch × Bool) → Bool
enables_primary s changes =
    (is_change (get_change llm_gateway_enabled changes)
      || is_change (get_change economy_mode_enabled changes))
    && (or_old (get_change llm_gateway_enabled changes) (s.switch llm_gateway_enabled)
        && not (or_old (get_change economy_mode_enabled changes) (s.switch economy_mode_enabled)))

abbrev pub is_none : {A : Type 0} → List A → Bool
is_none [] = true
is_none (x ∷ xs) = false

-- replace(state, **changes, updated_by=..., updated_at=...)
abbrev pub with_changes : FeatureState → List (Switch × Bool) → String → String → FeatureState
with_changes s changes actor at = record s {
  switch = λ x. or_old (get_change x changes) (s.switch x);
  updated_by = actor;
  updated_at = at;
}

abbrev pub with_allowed : AllowlistKind → FeatureState → List ℕ → String → String → FeatureState
with_allowed group_chat s ids actor at = record s {
  group_chat_allowed_group_ids = ids;
  updated_by = actor;
  updated_at = at;
}
with_allowed private_chat s ids actor at = record s {
  private_chat_allowed_user_ids = ids;
  updated_by = actor;
  updated_at = at;
}

abbrev pub allowlist : AllowlistKind → FeatureState → List ℕ
allowlist group_chat s = s.group_chat_allowed_group_ids
allowlist private_chat s = s.private_chat_allowed_user_ids

-- How a call ends: with the state that holds then, with a ValueError, with the error of a write.
pub data Reply : Type 0 where
  done : Reply
  refused : FeatureError → Reply
  write_failed : Reply

abbrev pub reply : {Input : Type 0} → Bool × Controller Input → Reply × Controller Input
reply (written, c) = (if written then done else write_failed, c)

module _ {Input : Type 0} (read : Input → Option ℕ) (print : ℕ → Input) where
  unfoldable pub set_switches :
      Fault → Controller Input → List (Switch × Bool) → String → String → Reply × Controller Input
  set_switches fault c changes actor at =
      if is_none changes
      then (refused no_changes, c)
      else elim (validate_switches c.capabilities changes) [
        | some e ↦ (refused e, c)
        | none ↦
            if not c.capabilities.primary_provider_available
              && (disables_chat_model c.state changes || enables_primary c.state changes)
            then (refused primary_unavailable, c)
            else reply (replace_state read print fault c (with_changes c.state changes actor at))
      ]

  unfoldable pub add_allowed :
      Fault → Controller Input → AllowlistKind → Input → String → String → Reply × Controller Input
  add_allowed fault c kind value actor at = elim (as_positive_int read print value) [
    | none ↦ (refused not_positive, c)
    | some n ↦
        if elem n (allowlist kind c.state)
        then (done, c)
        else elim (sorted_allowlist read print
            (map print (allowlist kind c.state) ++ print n ∷ [])) [
              | none ↦ (refused not_positive, c)
              | some ids ↦
                  reply (replace_state read print fault c (with_allowed kind c.state ids actor at))
            ]
  ]

  unfoldable pub remove_allowed :
      Fault → Controller Input → AllowlistKind → Input → String → String → Reply × Controller Input
  remove_allowed fault c kind value actor at = elim (as_positive_int read print value) [
    | none ↦ (refused not_positive, c)
    | some n ↦
        if elem n (allowlist kind c.state)
        then reply (
            replace_state read print fault c
              (with_allowed kind c.state (remove_id n (allowlist kind c.state)) actor at))
        else (done, c)
  ]

  abbrev pub same_group : Option ℕ → Option ℕ → Bool
  same_group (some n) (some m) = n == m
  same_group _ _ = false

  unfoldable pub business_allowed : Controller Input → Input → Input → Bool
  business_allowed c group target =
      c.capabilities.business_capable
      && (c.state.switch business_enabled
          && same_group (as_positive_int read print group) (as_positive_int read print target))

  unfoldable pub group_chat_allowed : Controller Input → Input → Bool
  group_chat_allowed c group =
      c.state.switch chat_enabled
      && (c.state.switch group_chat_enabled && elim (as_positive_int read print group) [
        | none ↦ false
        | some n ↦
            not (elem n c.capabilities.excluded_group_chat_ids)
            && elem n c.state.group_chat_allowed_group_ids
      ])

  unfoldable pub private_chat_allowed : Controller Input → Input → Bool
  private_chat_allowed c user =
      c.state.switch chat_enabled
      && (c.state.switch private_chat_enabled && elim (as_positive_int read print user) [
        | none ↦ false
        | some n ↦ elem n c.state.private_chat_allowed_user_ids
      ])

-- GATEWAY_DOMAIN_SWITCHES[domain]
abbrev pub domain_switch : Domain → Switch
domain_switch vision = llm_gateway_vision_enabled
domain_switch private_memory = llm_gateway_private_memory_enabled
domain_switch member_memory = llm_gateway_member_memory_enabled
domain_switch chat = llm_gateway_chat_enabled
domain_switch business = llm_gateway_business_enabled

abbrev pub is_business : Domain → Bool
is_business business = true
is_business _ = false

abbrev pub is_chat : Domain → Bool
is_chat chat = true
is_chat _ = false

unfoldable pub llm_gateway_allowed : {Input : Type 0} → Controller Input → Domain → Bool
llm_gateway_allowed c domain =
    if is_business domain && not c.capabilities.business_capable
    then false
    else if is_chat domain && c.state.switch economy_mode_enabled
    then true
    else c.state.switch llm_gateway_enabled && c.state.switch (domain_switch domain)
