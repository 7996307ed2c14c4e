-- ===== src/Budget/Types.antt =====
-- PromptBudget, TruncationCounters, SpeakerIdentity and BudgetedPromptData of models.py. The fields
-- that apply_prompt_budget only hands through (mode, now_text, the flags, the ids and names of the
-- current message) are left out.
use Prim.Native.Char.{Char}
use Prim.Native.String.{compare}
use Prim.Native.Nat.{Ordering}
use qq_violation_bot.Prelude.{ℕ, Bool, true, false, Option, List, String}

-- A str is the sequence of its characters.
abbrev pub Text : Type 0
Text = List Char

pub record PromptBudget : Type 0 where
  pub persona_chars : ℕ
  pub context_messages : ℕ
  pub context_chars : ℕ
  pub facts_chars : ℕ
  pub relationship_chars : ℕ
  pub topics_chars : ℕ
  pub images_chars : ℕ
  pub web_search_chars : ℕ
  pub current_chars : ℕ
  pub total_chars : ℕ

pub record TruncationCounters : Type 0 where
  pub persona_chars_removed : ℕ
  pub context_messages_removed : ℕ
  pub context_chars_removed : ℕ
  pub facts_chars_removed : ℕ
  pub relationship_chars_removed : ℕ
  pub topics_removed : ℕ
  pub topics_chars_removed : ℕ
  pub images_removed : ℕ
  pub images_chars_removed : ℕ
  pub web_search_chars_removed : ℕ
  pub current_chars_removed : ℕ

pub record SpeakerIdentity : Type 0 where
  pub ref : String
  pub user_id : String
  pub nickname : String
  pub current : Bool

pub record BudgetedPromptData : Type 0 where
  pub persona : Text
  pub speakers : List SpeakerIdentity
  pub context : List Text
  pub context_message_ids : List String
  pub context_speaker_refs : List String
  pub facts : List Text
  pub fact_speaker_refs : List String
  pub relationship : Text
  pub open_topics : List Text
  pub image_descriptions : List Text
  pub web_search_data : List Text
  pub current : Text
  pub current_text : Text
  pub current_speaker_ref : String
  pub current_at_speaker_refs : List String
  pub current_reply_author_ref : Option String
  pub truncation : TruncationCounters

-- What apply_prompt_budget has when it starts to fit the texts into the budget: the texts that
-- neutralize_role_markers, _context_text, _profile_text and _relationship_text return, and the
-- speakers of build_speaker_directory.
pub record RawPrompt : Type 0 where
  pub raw_persona : Text
  pub safe_current : Text
  pub identities : List SpeakerIdentity
  pub raw_context : List Text
  pub raw_ids : List String
  pub raw_context_refs : List String
  pub raw_facts : List Text
  pub raw_fact_refs : List String
  pub raw_relationship : Text
  pub raw_topics : List Text
  pub raw_images : List Text
  pub raw_searches : List Text
  pub current_ref : String
  pub at_refs : List String
  pub reply_author_ref : Option String

abbrev pub string_eq : String → String → Bool
string_eq s t = elim (compare s t) [ Ordering.eq ↦ true | _ ↦ false ]
