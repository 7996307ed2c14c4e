-- ===== src/Literals/Apart.antt =====
-- The matches of a text, and the positions that they cover.
use qq_violation_bot.Prelude.{
  ℕ, ◌+◌, ◌≡◌, inl, inr, Bool, true, List, [], ◌∷◌, String, Result, ok, raise, All, All-map,
  All-append, length, ◌==◌, if-ind, Option-cases,
}
use qq_violation_bot.Literals.Types.{Text, ScanError, Matcher, Hit, next_node, terminal_at}
use qq_violation_bot.Literals.Build.{is_empty}
use qq_violation_bot.Literals.Scan.{
  exceeds, group_size, Scan, empty_scan, hit, add_candidate, scan_ends, scan_starts,
}
use qq_violation_bot.Literals.Match.{
  accepted_hits, longest_first, insert_hit, sort_hits, sorts_before, match_hits,
}
use qq_violation_bot.Literals.Owners.{
  Apart, AllApart, Apart-sym, Owned, IsResolved, IsResolved-resolve_buckets,
}

-- The hits of groups of one record.
abbrev Singles : Matcher → List Hit → Type 0
Singles m = All (λ h. (group_size m h.record_index == 1) ≡ true)

abbrev ScannedSingles : Matcher → Result ScanError Scan → Type 0
ScannedSingles m (raise e) = Unit
ScannedSingles m (ok s) = Singles m s.accepted

Singles-add_candidate :
    (m : Matcher) (s : Scan) (h : Hit)
    → Singles m s.accepted
    → ScannedSingles m (add_candidate m s h)
unfolding add_candidate
Singles-add_candidate m s h v =
    if-ind (ScannedSingles m) (exceeds (s.count + 1) m.max_candidates) (λ _. tt)
      (λ _.
        if-ind (ScannedSingles m) (group_size m h.record_index == 1)
          (λ one.
            All-append (λ (k : Hit). (group_size m k.record_index == 1) ≡ true) s.accepted h v one)
          (λ _. v))

Singles-then :
    (m : Matcher) (r : Result ScanError Scan) (f : Scan → Result ScanError Scan)
    → ((s : Scan) → Singles m s.accepted → ScannedSingles m (f s))
    → ScannedSingles m r
    → ScannedSingles m (elim r [ raise e ↦ raise e | ok s ↦ f s ])
Singles-then m (raise e) f g v = tt
Singles-then m (ok s) f g v = g s v

Singles-scan_ends :
    (m : Matcher) (start : ℕ) (cs : Text) (end_ i : ℕ) (s : Scan)
    → Singles m s.accepted
    → ScannedSingles m (scan_ends m start end_ i cs s)
unfolding scan_ends
Singles-scan_ends m start [] end_ i s v = v
Singles-scan_ends m start (c ∷ cs) end_ i s v = elim (Option-cases (next_node m.nodes i c)) [
  | inl stop ↦ rw (stop, scan_ends) v
  | inr (j, next) ↦ elim (Option-cases (terminal_at m.nodes j)) [
    | inl none_ ↦ rw (next, none_, scan_ends) (Singles-scan_ends m start cs (end_ + 1) j s v)
    | inr (r, found) ↦
        rw (next, found, scan_ends)
          (Singles-then m (add_candidate m s (hit r start (end_ + 1))) _
            (λ t w. Singles-scan_ends m start cs (end_ + 1) j t w)
            (Singles-add_candidate m s (hit r start (end_ + 1)) v))
  ]
]

Singles-scan_starts :
    (m : Matcher) (cs : Text) (start : ℕ) (s : Scan)
    → Singles m s.accepted
    → ScannedSingles m (scan_starts m start cs s)
unfolding scan_starts
Singles-scan_starts m [] start s v = v
Singles-scan_starts m (c ∷ cs) start s v =
    Singles-then m (scan_ends m start start 0 (c ∷ cs) s) _
      (λ t w. Singles-scan_starts m cs (start + 1) t w)
      (Singles-scan_ends m start (c ∷ cs) start 0 s v)

IsResolved-Singles : (m : Matcher) (hs : List Hit) → Singles m hs → IsResolved m (hs, [])
IsResolved-Singles m [] v = record { owned = tt; apart = tt }
IsResolved-Singles m (h ∷ hs) v =
    let rest : IsResolved m (hs, []) = IsResolved-Singles m hs v.1 in
    record {
      owned = ((λ many. absurd (cc)), rest.owned);
      apart = (
        All-map (Owned m []) (Apart m h) hs (λ k w same many. absurd (cc)) rest.owned,
        rest.apart,
      );
    }

module _ (normalize : Text → Text) (before : String → String → Bool) (m : Matcher) where
  All-insert_hit :
      (P : Hit → Type 0) (h : Hit) (hs : List Hit)
      → P h
      → All P hs
      → All P (insert_hit normalize before m h hs)
  unfolding insert_hit
  All-insert_hit P h [] p v = (p, tt)
  All-insert_hit P h (k ∷ ks) p v =
      if-ind (All P) (sorts_before normalize before m k h) (λ _. (v.0, All-insert_hit P h ks p v.1))
        (λ _. (p, v))

  All-sort_hits :
      (P : Hit → Type 0) (hs : List Hit) → All P hs → All P (sort_hits normalize before m hs)
  unfolding sort_hits
  All-sort_hits P [] v = tt
  All-sort_hits P (h ∷ hs) v =
      All-insert_hit P h (sort_hits normalize before m hs) v.0 (All-sort_hits P hs v.1)

  AllApart-insert_hit :
      (h : Hit) (hs : List Hit)
      → All (Apart m h) hs
      → AllApart m hs
      → AllApart m (insert_hit normalize before m h hs)
  unfolding insert_hit
  AllApart-insert_hit h [] p v = (tt, tt)
  AllApart-insert_hit h (k ∷ ks) p v =
      if-ind (AllApart m) (sorts_before normalize before m k h)
        (λ _. (
          All-insert_hit (Apart m k) h ks (Apart-sym m h k p.0) v.0,
          AllApart-insert_hit h ks p.1 v.1,
        ))
        (λ _. (p, v))

  AllApart-sort_hits :
      (hs : List Hit) → AllApart m hs → AllApart m (sort_hits normalize before m hs)
  unfolding sort_hits
  AllApart-sort_hits [] v = tt
  AllApart-sort_hits (h ∷ hs) v =
      AllApart-insert_hit h (sort_hits normalize before m hs) (All-sort_hits (Apart m h) hs v.0)
        (AllApart-sort_hits hs v.1)

  abbrev pub MatchedApart : Result ScanError (List Hit) → Type 0
  MatchedApart (raise e) = Unit
  MatchedApart (ok hs) = AllApart m hs

  MatchedApart-scanned :
      (r : Result ScanError Scan)
      → ScannedSingles m r
      → MatchedApart (elim r [
        | raise e ↦ raise e
        | ok s ↦ ok (sort_hits normalize before m (accepted_hits m s))
      ])
  unfolding accepted_hits
  MatchedApart-scanned (raise e) v = tt
  MatchedApart-scanned (ok s) v =
      AllApart-sort_hits (accepted_hits m s)
        (IsResolved-resolve_buckets m (longest_first s.buckets) (s.accepted, [])
          (IsResolved-Singles m s.accepted v)).apart

  -- Of the matches of a text, two that belong to different records of one group, where the group has not
  -- one record only, cover no common position.
  pub match_hits-Apart : (text : Text) → MatchedApart (match_hits normalize before m text)
  unfolding match_hits
  match_hits-Apart text =
      if-ind MatchedApart (length m.nodes == 1) (λ _. tt)
        (λ _.
          if-ind MatchedApart (exceeds (length text) m.max_text_chars) (λ _. tt)
            (λ _.
              if-ind MatchedApart (is_empty (normalize text)) (λ _. tt)
                (λ _.
                  if-ind MatchedApart (exceeds (length (normalize text)) m.max_text_chars) (λ _. tt)
                    (λ _.
                      MatchedApart-scanned (scan_starts m 0 (normalize text) empty_scan)
                        (Singles-scan_starts m (normalize text) 0 empty_scan tt)))))
