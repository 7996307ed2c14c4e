-- ===== src/Literals/Normal.antt =====
-- normalize_literal_text of plugins/content_alert/rules.py. Unicode's tables are arguments: NFKC with
-- casefold, the whitespace, and the categories Cc, Cf and Cs.
use qq_violation_bot.Prelude.{ℕ, Bool, true, false, ◌&&◌, ◌||◌, List, [], ◌∷◌, leb, if◌then◌else◌}
use qq_violation_bot.Literals.Types.{Text}

-- _IGNORABLE_LITERAL_RANGES
abbrev pub ignorable_ranges : List (ℕ × ℕ)
ignorable_ranges =
    (847, 847)
    ∷ (4447, 4448)
    ∷ (6068, 6069)
    ∷ (6155, 6159)
    ∷ (8293, 8293)
    ∷ (12644, 12644)
    ∷ (65024, 65039)
    ∷ (65520, 65528)
    ∷ (65440, 65440)
    ∷ (113824, 113827)
    ∷ (119155, 119162)
    ∷ (917504, 921599)
    ∷ []

abbrev pub in_ranges : ℕ → List (ℕ × ℕ) → Bool
in_ranges c [] = false
in_ranges c (r ∷ rs) = leb r.0 c && leb c r.1 || in_ranges c rs

module _ (nfkc_casefold : Text → Text) (is_space is_control : ℕ → Bool) where
  abbrev pub is_ignored_literal_character : ℕ → Bool
  is_ignored_literal_character c = if is_control c then true else in_ranges c ignorable_ranges

  abbrev pub keep_visible : Text → Text
  keep_visible [] = []
  keep_visible (c ∷ cs) =
      let rest = keep_visible cs in
      if is_space c || is_ignored_literal_character c then rest else c ∷ rest

  unfoldable pub normalize_literal_text : Text → Text
  normalize_literal_text value = keep_visible (nfkc_casefold (keep_visible (nfkc_casefold value)))
