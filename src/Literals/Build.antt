-- ===== src/Literals/Build.antt =====
-- ScalableLiteralMatcher.__init__, for limits that are positive.
use text.Mathlib.Text.{◌==◌ as str_eq}
use qq_violation_bot.Prelude.{
  ℕ, ◌+◌, Bool, true, false, not, ◌&&◌, ◌||◌, Option, none, some, List, [], ◌∷◌, ◌++◌, String,
  Result, ok, raise, length, ltb, leb, if◌then◌else◌,
}
use qq_violation_bot.Literals.Types.{
  Text, same_text, Node, PatternError, pattern_limit, empty_key, duplicate_key, empty_pattern,
  duplicate_pattern, node_limit, bad_groups, Builder, Matcher, set_item, next_node, empty_node,
  add_child, with_terminal,
}

abbrev pub has_text : Text → List Text → Bool
has_text t [] = false
has_text t (s ∷ ss) = same_text t s || has_text t ss

abbrev pub has_key : String → List String → Bool
has_key k [] = false
has_key k (l ∷ ls) = str_eq k l || has_key k ls

-- `limit is not None and count >= limit`
abbrev pub reaches : ℕ → Option ℕ → Bool
reaches n none = false
reaches n (some limit) = leb limit n

unfoldable pub insert_chars : Option ℕ → List Node → ℕ → Text → Result PatternError (ℕ × List Node)
insert_chars max_nodes ns i [] = ok (i, ns)
insert_chars max_nodes ns i (c ∷ cs) = elim (next_node ns i c) [
  | some j ↦ insert_chars max_nodes ns j cs
  | none ↦ elim (reaches (length ns) max_nodes) [
    | true ↦ raise node_limit
    | false ↦ insert_chars max_nodes (add_child ns i c) (length ns) cs
  ]
]

abbrev pub is_empty : Text → Bool
is_empty [] = true
is_empty (c ∷ cs) = false

abbrev pub publish_record : Builder → String → Text → Text → ℕ × List Node → Builder
publish_record b key pattern normalized r = record {
  nodes = set_item r.0 (with_terminal (length b.records)) r.1;
  records = b.records ++ (key, pattern) ∷ [];
  seen_keys = b.seen_keys ++ key ∷ [];
  seen_patterns = b.seen_patterns ++ normalized ∷ [];
}

module _ (normalize : Text → Text) where
  -- One turn of the loop over the patterns.
  unfoldable pub add_pattern : ℕ → Option ℕ → Builder → String × Text → Result PatternError Builder
  add_pattern max_patterns max_nodes b (key, pattern) =
      let normalized = normalize pattern in
      if ltb max_patterns (length b.records + 1)
      then raise pattern_limit
      else if str_eq key ""
      then raise empty_key
      else if has_key key b.seen_keys
      then raise duplicate_key
      else if is_empty normalized
      then raise empty_pattern
      else if has_text normalized b.seen_patterns
      then raise duplicate_pattern
      else elim (insert_chars max_nodes b.nodes 0 normalized) [
        | raise e ↦ raise e
        | ok r ↦ ok (publish_record b key pattern normalized r)
      ]

  unfoldable pub add_patterns :
      ℕ → Option ℕ → Builder → List (String × Text) → Result PatternError Builder
  add_patterns max_patterns max_nodes b [] = ok b
  add_patterns max_patterns max_nodes b (p ∷ ps) = elim (add_pattern max_patterns max_nodes b p) [
    | raise e ↦ raise e
    | ok b' ↦ add_patterns max_patterns max_nodes b' ps
  ]

  abbrev pub empty_builder : Builder
  empty_builder = record {
    nodes = empty_node ∷ [];
    records = [];
    seen_keys = [];
    seen_patterns = [];
  }

  abbrev pub group_of : List (String × String) → String → String
  group_of [] key = "__default__"
  group_of (g ∷ gs) key = if str_eq g.0 key then g.1 else group_of gs key

  abbrev pub groups_of : List (String × String) → List (String × Text) → List String
  groups_of gs [] = []
  groups_of gs (r ∷ rs) = group_of gs r.0 ∷ groups_of gs rs

  abbrev pub all_keys : List String → List String → Bool
  all_keys [] ks = true
  all_keys (k ∷ js) ks = has_key k ks && all_keys js ks

  abbrev pub keys_of : List (String × String) → List String
  keys_of [] = []
  keys_of (g ∷ gs) = g.0 ∷ keys_of gs

  abbrev pub all_named : List (String × String) → Bool
  all_named [] = true
  all_named (g ∷ gs) = not (str_eq g.1 "") && all_named gs

  -- `set(overlap_groups) == seen_keys`, and no group is empty; the mapping is a list of its items.
  abbrev pub fits_groups : Option (List (String × String)) → List String → Bool
  fits_groups none keys = true
  fits_groups (some gs) keys =
      all_keys (keys_of gs) keys && (all_keys keys (keys_of gs) && all_named gs)

  abbrev pub items_of : Option (List (String × String)) → List (String × String)
  items_of none = []
  items_of (some gs) = gs

  unfoldable pub build :
      List (String × Text)
      → ℕ
      → Option ℕ
      → Option (List (String × String))
      → Option ℕ
      → Option ℕ
      → Result PatternError Matcher
  build patterns max_patterns max_nodes overlap_groups max_text_chars max_candidates =
      elim (add_patterns max_patterns max_nodes empty_builder patterns) [
        | raise e ↦ raise e
        | ok b ↦
            if not (fits_groups overlap_groups b.seen_keys)
            then raise bad_groups
            else ok (record {
              nodes = b.nodes;
              records = b.records;
              groups = groups_of (items_of overlap_groups) b.records;
              max_text_chars = max_text_chars;
              max_candidates = max_candidates;
            })
      ]
