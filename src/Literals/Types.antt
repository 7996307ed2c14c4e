-- ===== src/Literals/Types.antt =====
-- The trie of a ScalableLiteralMatcher and what its scan keeps. A text is the list of its code points.
use qq_violation_bot.Prelude.{
  ℕ, zero, suc, Bool, true, false, ◌&&◌, Option, none, some, List, [], ◌∷◌, ◌++◌, String, length,
  ◌==◌, if◌then◌else◌,
}

abbrev pub Text : Type 0
Text = List ℕ

abbrev pub same_text : Text → Text → Bool
same_text [] [] = true
same_text (a ∷ s) (b ∷ t) = (a == b) && same_text s t
same_text _ _ = false

-- An entry of `transitions`, a dict, with the entry of `terminals` at the same index.
pub record Node : Type 0 where
  pub edges : List (ℕ × ℕ)
  pub terminal : Option ℕ

pub data PatternError : Type 0 where
  pattern_limit empty_key duplicate_key empty_pattern duplicate_pattern node_limit bad_groups :
      PatternError

pub data ScanError : Type 0 where
  raw_text_limit normalized_text_limit candidate_limit : ScanError

pub record Builder : Type 0 where
  pub nodes : List Node
  pub records : List (String × Text)
  pub seen_keys : List String
  pub seen_patterns : List Text

pub record Matcher : Type 0 where
  pub nodes : List Node
  pub records : List (String × Text)
  pub groups : List String
  pub max_text_chars : Option ℕ
  pub max_candidates : Option ℕ

-- The index of a record and the positions that it covers.
pub record Hit : Type 0 where
  pub record_index : ℕ
  pub start : ℕ
  pub end_ : ℕ

pub record LiteralMatch : Type 0 where
  pub key : String
  pub pattern : Text
  pub start : ℕ
  pub end_ : ℕ

-- xs[i]
unfoldable pub item {ℓ} : {A : Type ℓ} → ℕ → List A → Option A
item n [] = none
item zero (x ∷ xs) = some x
item (suc n) (x ∷ xs) = item n xs

unfoldable pub set_item {ℓ} : {A : Type ℓ} → ℕ → (A → A) → List A → List A
set_item n f [] = []
set_item zero f (x ∷ xs) = f x ∷ xs
set_item (suc n) f (x ∷ xs) = x ∷ set_item n f xs

abbrev pub edge : ℕ → List (ℕ × ℕ) → Option ℕ
edge c [] = none
edge c (e ∷ es) = if c == e.0 then some e.1 else edge c es

-- transitions[i].get(c)
unfoldable pub next_node : List Node → ℕ → ℕ → Option ℕ
next_node ns i c = elim (item i ns) [ none ↦ none | some n ↦ edge c n.edges ]

-- terminals[i]
unfoldable pub terminal_at : List Node → ℕ → Option ℕ
terminal_at ns i = elim (item i ns) [ none ↦ none | some n ↦ n.terminal ]

abbrev pub empty_node : Node
empty_node = record { edges = []; terminal = none }

abbrev pub with_edge : ℕ → ℕ → Node → Node
with_edge c k n = record n { edges = (c, k) ∷ n.edges }

-- A new node behind the character `c` of node `i`.
unfoldable pub add_child : List Node → ℕ → ℕ → List Node
add_child ns i c = set_item i (with_edge c (length ns)) ns ++ empty_node ∷ []

abbrev pub with_terminal : ℕ → Node → Node
with_terminal r n = record n { terminal = some r }
