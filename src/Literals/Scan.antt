-- ===== src/Literals/Scan.antt =====
-- match_text_all and match_text. A bucket of candidates holds the pairs that the source's integers
-- encode: start * record_count + terminal.
use text.Mathlib.Text.{◌==◌ as str_eq}
use qq_violation_bot.Prelude.{
  ℕ, ◌+◌, ◌-◌, Bool, false, Option, none, some, List, [], ◌∷◌, ◌++◌, String, Result, ok, raise, ltb,
  ◌==◌, if◌then◌else◌,
}
use qq_violation_bot.Literals.Types.{
  Text, ScanError, candidate_limit, Matcher, Hit, item, next_node, terminal_at,
}

-- `limit is not None and n > limit`
abbrev pub exceeds : ℕ → Option ℕ → Bool
exceeds n none = false
exceeds n (some limit) = ltb limit n

-- Where an index is out of range there is no group; a terminal is always an index of a record.
abbrev pub group_at : Matcher → ℕ → String
group_at m r = elim (item r m.groups) [ none ↦ "" | some g ↦ g ]

abbrev pub count_group : String → List String → ℕ
count_group g [] = 0
count_group g (h ∷ hs) = if str_eq g h then count_group g hs + 1 else count_group g hs

abbrev pub group_size : Matcher → ℕ → ℕ
group_size m r = count_group (group_at m r) m.groups

-- candidates_by_length, in the order in which the lengths came.
abbrev pub Buckets : Type 0
Buckets = List (ℕ × List (ℕ × ℕ))

abbrev pub add_to_bucket : ℕ → ℕ × ℕ → Buckets → Buckets
add_to_bucket n c [] = (n, c ∷ []) ∷ []
add_to_bucket n c (b ∷ bs) = if b.0 == n then (n, b.1 ++ c ∷ []) ∷ bs else b ∷ add_to_bucket n c bs

pub record Scan : Type 0 where
  pub count : ℕ
  pub accepted : List Hit
  pub buckets : Buckets

abbrev pub empty_scan : Scan
empty_scan = record { count = 0; accepted = []; buckets = [] }

-- What the inner loop does with a terminal.
unfoldable pub add_candidate : Matcher → Scan → Hit → Result ScanError Scan
add_candidate m s h =
    if exceeds (s.count + 1) m.max_candidates
    then raise candidate_limit
    else if group_size m h.record_index == 1
    then ok (record s { count = s.count + 1; accepted = s.accepted ++ h ∷ [] })
    else ok (record s {
      count = s.count + 1;
      buckets = add_to_bucket (h.end_ - h.start) (h.start, h.record_index) s.buckets;
    })

abbrev pub hit : ℕ → ℕ → ℕ → Hit
hit r start end_ = record { record_index = r; start = start; end_ = end_ }

-- The loop over `end`: `text` is what is left from there.
unfoldable pub scan_ends : Matcher → ℕ → ℕ → ℕ → Text → Scan → Result ScanError Scan
scan_ends m start end_ i [] s = ok s
scan_ends m start end_ i (c ∷ cs) s = elim (next_node m.nodes i c) [
  | none ↦ ok s
  | some j ↦ elim (terminal_at m.nodes j) [
    | none ↦ scan_ends m start (end_ + 1) j cs s
    | some r ↦ elim (add_candidate m s (hit r start (end_ + 1))) [
      | raise e ↦ raise e
      | ok s' ↦ scan_ends m start (end_ + 1) j cs s'
    ]
  ]
]

-- The loop over `start`.
unfoldable pub scan_starts : Matcher → ℕ → Text → Scan → Result ScanError Scan
scan_starts m start [] s = ok s
scan_starts m start (c ∷ cs) s = elim (scan_ends m start start 0 (c ∷ cs) s) [
  | raise e ↦ raise e
  | ok s' ↦ scan_starts m (start + 1) cs s'
]
