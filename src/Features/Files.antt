-- ===== src/Features/Files.antt =====
-- The two files of the feature state: _load_state, _write_json and _persist. A file holds the object
-- that json.load gives, or nothing where it is missing or no JSON. `read` and `print` stand for what
-- str, strip, isdigit and int do: `read v` is the number whose decimal digits str(v).strip() is.
use qq_violation_bot.Prelude.{
  ℕ, Bool, true, false, ◌&&◌, Option, none, some, List, [], ◌∷◌, map, String, ltb, if◌then◌else◌,
}
use qq_violation_bot.Features.Types.{
  Switch, FeatureState, Capabilities, business_enabled, chat_enabled, group_chat_enabled,
  private_chat_enabled, private_memory_enabled, relationship_state_enabled, llm_gateway_enabled,
  memory_governance_enabled, llm_gateway_vision_enabled, llm_gateway_private_memory_enabled,
  llm_gateway_member_memory_enabled, llm_gateway_chat_enabled, llm_gateway_business_enabled,
  economy_mode_enabled, hive_member_monitor_enabled, content_alert_enabled, prompt_builder_enabled,
  web_search_enabled,
}
use qq_violation_bot.Features.Lists.{sorted_set}

-- A value of the JSON object: true or false, an array, anything else.
pub data Value (Input : Type 0) : Type 0 where
  boolean : Bool → Value Input
  array : List Input → Value Input
  other : Value Input

-- The JSON object by its keys; the last two are what str gives for their values.
pub record Raw (Input : Type 0) : Type 0 where
  pub entry : Switch → Option (Value Input)
  pub groups : Option (Value Input)
  pub users : Option (Value Input)
  pub at : Option String
  pub by : Option String

-- What a switch is where the object has no such key; none where that is a KeyError.
abbrev pub missing : FeatureState → Switch → Option Bool
missing defaults business_enabled = none
missing defaults chat_enabled = none
missing defaults group_chat_enabled = none
missing defaults private_chat_enabled = none
missing defaults private_memory_enabled = some (defaults.switch private_memory_enabled)
missing defaults relationship_state_enabled = some (defaults.switch relationship_state_enabled)
missing defaults memory_governance_enabled = some (defaults.switch memory_governance_enabled)
missing defaults hive_member_monitor_enabled = some (defaults.switch hive_member_monitor_enabled)
missing defaults content_alert_enabled = some (defaults.switch content_alert_enabled)
missing defaults _ = some false

-- _strict_bool of the value.
abbrev pub strict_bool : {Input : Type 0} → Value Input → Option Bool
strict_bool (boolean b) = some b
strict_bool _ = none

abbrev pub load_switch : {Input : Type 0} → FeatureState → Raw Input → Switch → Option Bool
load_switch defaults raw x = elim (raw.entry x) [
  | none ↦ missing defaults x
  | some v ↦ strict_bool v
]

abbrev pub is_loaded : Option Bool → Bool
is_loaded none = false
is_loaded (some b) = true

abbrev pub value_of : Option Bool → Bool
value_of none = false
value_of (some b) = b

abbrev pub all_switches : List Switch
all_switches =
    business_enabled ∷ chat_enabled ∷ group_chat_enabled ∷ private_chat_enabled
    ∷ private_memory_enabled ∷ relationship_state_enabled ∷ memory_governance_enabled
    ∷ llm_gateway_enabled ∷ prompt_builder_enabled ∷ web_search_enabled ∷ llm_gateway_vision_enabled
    ∷ llm_gateway_private_memory_enabled ∷ llm_gateway_member_memory_enabled
    ∷ llm_gateway_chat_enabled ∷ llm_gateway_business_enabled ∷ economy_mode_enabled
    ∷ hive_member_monitor_enabled ∷ content_alert_enabled ∷ []

abbrev pub all : (Switch → Bool) → List Switch → Bool
all test [] = true
all test (x ∷ xs) = test x && all test xs

abbrev pub text_of : Option String → String
text_of none = ""
text_of (some t) = t

-- A file that a write may not reach: the disk may refuse the backup or the file itself.
pub data Fault : Type 0 where
  no_fault at_backup at_file : Fault

pub record Controller (Input : Type 0) : Type 0 where
  pub capabilities : Capabilities
  pub state : FeatureState
  pub file : Option (Raw Input)
  pub backup : Option (Raw Input)

abbrev pub first_state : Option FeatureState → Option FeatureState → FeatureState → FeatureState
first_state (some s) backup defaults = s
first_state none (some s) defaults = s
first_state none none defaults = defaults

-- Whether the program was started with what the switch needs.
abbrev pub is_capable : Capabilities → Switch → Bool
is_capable caps business_enabled = caps.business_capable
is_capable caps llm_gateway_business_enabled = caps.business_capable
is_capable caps hive_member_monitor_enabled = caps.hive_member_monitor_capable
is_capable caps content_alert_enabled = caps.content_alert_capable
is_capable caps _ = true

-- `unavailable_changes`
abbrev pub without_incapable : Capabilities → FeatureState → FeatureState
without_incapable caps s = record s {
  switch = λ x. if is_capable caps x then s.switch x else false;
}

module _ {Input : Type 0} (read : Input → Option ℕ) (print : ℕ → Input) where
  abbrev pub as_positive_int : Input → Option ℕ
  as_positive_int v = elim (read v) [ none ↦ none | some n ↦ if ltb 0 n then some n else none ]

  -- Every value validated; none where one raises.
  unfoldable pub positive_values : List Input → Option (List ℕ)
  positive_values [] = some []
  positive_values (v ∷ vs) = elim (as_positive_int v) [
    | none ↦ none
    | some n ↦ elim (positive_values vs) [ none ↦ none | some ns ↦ some (n ∷ ns) ]
  ]

  unfoldable pub sorted_allowlist : List Input → Option (List ℕ)
  sorted_allowlist vs = elim (positive_values vs) [ none ↦ none | some ns ↦ some (sorted_set ns) ]

  abbrev pub load_allowlist : Option (Value Input) → Option (List ℕ)
  load_allowlist (some (array vs)) = sorted_allowlist vs
  load_allowlist _ = none

  unfoldable pub load_state : Option (Raw Input) → FeatureState → Option FeatureState
  load_state none defaults = none
  load_state (some raw) defaults =
      if all (λ x. is_loaded (load_switch defaults raw x)) all_switches
      then elim (load_allowlist raw.groups) [
        | none ↦ none
        | some groups ↦ elim (load_allowlist raw.users) [
          | none ↦ none
          | some users ↦ some (record {
            switch = λ x. value_of (load_switch defaults raw x);
            group_chat_allowed_group_ids = groups;
            private_chat_allowed_user_ids = users;
            updated_at = text_of raw.at;
            updated_by = text_of raw.by;
          })
        ]
      ]
      else none

  -- The object that _write_json writes: asdict(state).
  abbrev pub as_dict : FeatureState → Raw Input
  as_dict s = record {
    entry = λ x. some (boolean (s.switch x));
    groups = some (array (map print s.group_chat_allowed_group_ids));
    users = some (array (map print s.private_chat_allowed_user_ids));
    at = some s.updated_at;
    by = some s.updated_by;
  }

  unfoldable pub open_state :
      Capabilities → FeatureState → Option (Raw Input) → Option (Raw Input) → FeatureState
  open_state caps defaults file backup =
      without_incapable caps
        (first_state (load_state file defaults) (load_state backup defaults) defaults)

  -- FeatureController.__init__
  unfoldable pub start :
      Capabilities → FeatureState → Option (Raw Input) → Option (Raw Input) → Controller Input
  start caps defaults file backup = record {
    capabilities = caps;
    state = open_state caps defaults file backup;
    file = file;
    backup = backup;
  }

  -- _persist and the assignment after it; whether both writes went through.
  unfoldable pub replace_state : Fault → Controller Input → FeatureState → Bool × Controller Input
  replace_state at_backup c s = (false, c)
  replace_state at_file c s = (false, record c { backup = some (as_dict c.state) })
  replace_state no_fault c s =
      (true, record c { state = s; backup = some (as_dict c.state); file = some (as_dict s) })
