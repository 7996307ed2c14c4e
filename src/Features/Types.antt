-- ===== src/Features/Types.antt =====
-- The switches and allowlists of FeatureState, and what FeatureController is told when it starts.
use qq_violation_bot.Prelude.{ℕ, Bool, List, String}

-- SWITCH_NAMES: the Boolean fields of FeatureState, by their names.
pub data Switch : Type 0 where
  business_enabled chat_enabled group_chat_enabled private_chat_enabled : Switch
  private_memory_enabled relationship_state_enabled memory_governance_enabled : Switch
  llm_gateway_enabled prompt_builder_enabled web_search_enabled : Switch
  llm_gateway_vision_enabled llm_gateway_private_memory_enabled : Switch
  llm_gateway_member_memory_enabled llm_gateway_chat_enabled : Switch
  llm_gateway_business_enabled economy_mode_enabled : Switch
  hive_member_monitor_enabled content_alert_enabled : Switch

unfoldable pub Switch-discrete : Discrete Switch
Switch-discrete = hlevel

-- ALLOWLIST_KINDS
pub data AllowlistKind : Type 0 where
  group_chat private_chat : AllowlistKind

-- GATEWAY_DOMAIN_SWITCHES
pub data Domain : Type 0 where
  vision private_memory member_memory chat business : Domain

pub record FeatureState : Type 0 where
  pub switch : Switch → Bool
  pub group_chat_allowed_group_ids : List ℕ
  pub private_chat_allowed_user_ids : List ℕ
  pub updated_at : String
  pub updated_by : String

pub record Capabilities : Type 0 where
  pub business_capable : Bool
  pub economy_provider_available : Bool
  pub primary_provider_available : Bool
  pub hive_member_monitor_capable : Bool
  pub content_alert_capable : Bool
  pub excluded_group_chat_ids : List ℕ

pub data FeatureError : Type 0 where
  no_changes business_unavailable economy_unavailable hive_unavailable : FeatureError
  alert_unavailable primary_unavailable not_positive : FeatureError
