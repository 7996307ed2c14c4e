-- ===== src/Literals/Tests.antt =====
-- A matcher of three literals, two of which compete.
use qq_violation_bot.Prelude.{◌≡◌, refl, Bool, true, none, some, List, [], ◌∷◌, String, ok, raise}
use qq_violation_bot.Literals.Types.{
  Text, Matcher, node_limit, item, set_item, next_node, terminal_at, add_child,
}
use qq_violation_bot.Literals.Build.{build, add_pattern, add_patterns, insert_chars}
use qq_violation_bot.Literals.Scan.{empty_scan, hit, add_candidate, scan_ends, scan_starts}
use qq_violation_bot.Literals.Match.{
  match_hits, accepted_hits, resolve_buckets, resolve_bucket, resolve_one, sort_hits, insert_hit,
}
use qq_violation_bot.Literals.Built.{normals}
use qq_violation_bot.Literals.Equal.{occurrences, add_candidates, scan_starts-build}
use qq_violation_bot.Literals.Apart.{MatchedApart, match_hits-Apart}

abbrev as_is : Text → Text
as_is t = t

abbrev any_order : String → String → Bool
any_order a b = true

abbrev literals : List (String × Text)
literals = ("short", 1 ∷ 2 ∷ []) ∷ ("long", 1 ∷ 2 ∷ 3 ∷ []) ∷ ("other", 3 ∷ 4 ∷ []) ∷ []

abbrev matcher : Matcher
matcher = record {
  nodes =
      record { edges = (3, 4) ∷ (1, 1) ∷ []; terminal = none }
      ∷ record { edges = (2, 2) ∷ []; terminal = none }
      ∷ record { edges = (3, 3) ∷ []; terminal = some 0 }
      ∷ record { edges = []; terminal = some 1 }
      ∷ record { edges = (4, 5) ∷ []; terminal = none }
      ∷ record { edges = []; terminal = some 2 }
      ∷ [];
  records = literals;
  groups = "__default__" ∷ "__default__" ∷ "__default__" ∷ [];
  max_text_chars = some 100;
  max_candidates = some 3;
}

matcher-built : build as_is literals 5 (some 6) none (some 100) (some 3) ≡ ok matcher
unfolding build add_patterns add_pattern insert_chars next_node item set_item add_child
matcher-built = refl

-- One node fewer is not enough.
too_few_nodes : build as_is literals 5 (some 5) none (some 100) (some 3) ≡ raise node_limit
unfolding build add_patterns add_pattern insert_chars next_node item set_item add_child
too_few_nodes = refl

abbrev sample : Text
sample = 1 ∷ 2 ∷ 3 ∷ 4 ∷ []

-- The longest literal takes the positions of the other two.
longest : match_hits as_is any_order matcher sample ≡ ok (hit 1 0 3 ∷ [])
unfolding match_hits scan_starts scan_ends add_candidate next_node terminal_at item accepted_hits
    resolve_buckets resolve_bucket resolve_one sort_hits insert_hit
longest = refl

scan_starts-build_example :
    scan_starts matcher 0 sample empty_scan
    ≡ add_candidates matcher (occurrences (normals as_is literals) 0 sample) empty_scan
scan_starts-build_example =
    scan_starts-build as_is literals 5 (some 6) none (some 100) (some 3) matcher sample empty_scan
      matcher-built

match_hits-Apart_example :
    MatchedApart as_is any_order matcher (match_hits as_is any_order matcher sample)
match_hits-Apart_example = match_hits-Apart as_is any_order matcher sample
