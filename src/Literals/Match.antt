-- ===== src/Literals/Match.antt =====
-- match_text_all and match_text: competing candidates, the order of the matches, one match for a key.
use text.Mathlib.Text.{◌==◌ as str_eq}
use qq_violation_bot.Prelude.{
  ℕ, zero, suc, ◌+◌, ◌-◌, Bool, false, not, ◌&&◌, ◌||◌, Option, none, some, List, [], ◌∷◌, ◌++◌,
  String, Result, ok, raise, length, ltb, leb, ◌==◌, if◌then◌else◌,
}
use qq_violation_bot.Literals.Types.{
  Text, ScanError, raw_text_limit, normalized_text_limit, Matcher, Hit, LiteralMatch, item,
}
use qq_violation_bot.Literals.Build.{has_key, is_empty}
use qq_violation_bot.Literals.Scan.{exceeds, group_at, Buckets, Scan, empty_scan, hit, scan_starts}

-- owners_by_group: the owner of a position in a group.
pub record Owner : Type 0 where
  pub group : String
  pub offset : ℕ
  pub owner : ℕ

abbrev pub owner_of : String → ℕ → List Owner → Option ℕ
owner_of g p [] = none
owner_of g p (o ∷ os) =
    if str_eq o.group g && (o.offset == p) then some o.owner else owner_of g p os

abbrev pub is_other : ℕ → Option ℕ → Bool
is_other r none = false
is_other r (some o) = not (o == r)

-- any(...) over the `n` positions from `start` on.
abbrev pub has_other : String → ℕ → List Owner → ℕ → ℕ → Bool
has_other g r os start zero = false
has_other g r os start (suc n) = is_other r (owner_of g start os) || has_other g r os (start + 1) n

abbrev pub own_positions : String → ℕ → ℕ → ℕ → List Owner → List Owner
own_positions g r start zero os = os
own_positions g r start (suc n) os =
    own_positions g r (start + 1) n (record { group = g; offset = start; owner = r } ∷ os)

-- A turn of the loop over the candidates of one length.
unfoldable pub resolve_one : Matcher → ℕ → ℕ × ℕ → List Hit × List Owner → List Hit × List Owner
resolve_one m n (start, r) (hits, os) =
    if has_other (group_at m r) r os start n
    then (hits, os)
    else (hits ++ hit r start (start + n) ∷ [], own_positions (group_at m r) r start n os)

unfoldable pub resolve_bucket :
    Matcher → ℕ → List (ℕ × ℕ) → List Hit × List Owner → List Hit × List Owner
resolve_bucket m n [] a = a
resolve_bucket m n (c ∷ cs) a = resolve_bucket m n cs (resolve_one m n c a)

unfoldable pub resolve_buckets : Matcher → Buckets → List Hit × List Owner → List Hit × List Owner
resolve_buckets m [] a = a
resolve_buckets m (b ∷ bs) a = resolve_buckets m bs (resolve_bucket m b.0 b.1 a)

-- sorted(candidates_by_length, reverse=True)
abbrev pub insert_length : ℕ × List (ℕ × ℕ) → Buckets → Buckets
insert_length b [] = b ∷ []
insert_length b (d ∷ ds) =
    let rest = insert_length b ds in if leb d.0 b.0 then b ∷ d ∷ ds else d ∷ rest

abbrev pub longest_first : Buckets → Buckets
longest_first [] = []
longest_first (b ∷ bs) = insert_length b (longest_first bs)

-- accepted, before it is sorted.
unfoldable pub accepted_hits : Matcher → Scan → List Hit
accepted_hits m s = (resolve_buckets m (longest_first s.buckets) (s.accepted, [])).0

abbrev pub key_at : Matcher → ℕ → String
key_at m r = elim (item r m.records) [ none ↦ "" | some p ↦ p.0 ]

abbrev pub to_matches : Matcher → List Hit → List LiteralMatch
to_matches m [] = []
to_matches m (h ∷ hs) =
    let rest = to_matches m hs in
    elim (item h.record_index m.records) [
      | none ↦ rest
      | some p ↦ record { key = p.0; pattern = p.1; start = h.start; end_ = h.end_ } ∷ rest
    ]

abbrev pub keep_first : List String → List LiteralMatch → List LiteralMatch
keep_first seen [] = []
keep_first seen (x ∷ xs) =
    let skip = keep_first seen xs in
    let take = keep_first (x.key ∷ seen) xs in if has_key x.key seen then skip else x ∷ take

-- `before` is the order of texts.
module _ (normalize : Text → Text) (before : String → String → Bool) where
  abbrev pub sorts_before : Matcher → Hit → Hit → Bool
  sorts_before m h k =
      ltb h.start k.start
      || (h.start == k.start)
        && (ltb (k.end_ - k.start) (h.end_ - h.start)
            || (h.end_ - h.start == k.end_ - k.start)
              && before (key_at m h.record_index) (key_at m k.record_index))

  unfoldable pub insert_hit : Matcher → Hit → List Hit → List Hit
  insert_hit m h [] = h ∷ []
  insert_hit m h (k ∷ ks) =
      let rest = insert_hit m h ks in if sorts_before m k h then k ∷ rest else h ∷ k ∷ ks

  unfoldable pub sort_hits : Matcher → List Hit → List Hit
  sort_hits m [] = []
  sort_hits m (h ∷ hs) = insert_hit m h (sort_hits m hs)

  -- The matches by the indices of their records.
  unfoldable pub match_hits : Matcher → Text → Result ScanError (List Hit)
  match_hits m text =
      if length m.nodes == 1
      then ok []
      else if exceeds (length text) m.max_text_chars
      then raise raw_text_limit
      else if is_empty (normalize text)
      then ok []
      else if exceeds (length (normalize text)) m.max_text_chars
      then raise normalized_text_limit
      else elim (scan_starts m 0 (normalize text) empty_scan) [
        | raise e ↦ raise e
        | ok s ↦ ok (sort_hits m (accepted_hits m s))
      ]

  unfoldable pub match_text_all : Matcher → Text → Result ScanError (List LiteralMatch)
  match_text_all m text = elim (match_hits m text) [
    | raise e ↦ raise e
    | ok hs ↦ ok (to_matches m hs)
  ]

  unfoldable pub match_text : Matcher → Text → Result ScanError (List LiteralMatch)
  match_text m text = elim (match_text_all m text) [
    | raise e ↦ raise e
    | ok xs ↦ ok (keep_first [] xs)
  ]
