-- ===== src/Literals/Owners.antt =====
-- Matches that compete for positions, and the owners of the positions.
use text.Mathlib.TextEquality.{eq_iff}
use text.Mathlib.Text.{◌==◌ as str_eq}
use text.Mathlib.TextPositions.{eq_refl}
use qq_violation_bot.Prelude.{
  ℕ, zero, suc, ◌+◌, ◌≤◌, ◌<◌, ◌≡◌, sym, ap, subst, ◌∙◌, inl, inr, Bool, true, false, ◌&&◌, Option,
  some, List, [], ◌∷◌, ◌++◌, String, arith, All, All-map, All-append, ltb, leb, ◌==◌, if◌then◌else◌,
  if-ind, Bool-cases,
}
use qq_violation_bot.Literals.Types.{Matcher, Hit}
use qq_violation_bot.Literals.Scan.{Buckets, group_at, group_size, hit}
use qq_violation_bot.Literals.Match.{
  Owner, owner_of, is_other, has_other, own_positions, resolve_one, resolve_bucket, resolve_buckets,
}

abbrev pub covers : Hit → ℕ → Bool
covers h p = leb h.start p && ltb p h.end_

-- Two records of a group that has not one record only: the hits have no position in common.
abbrev pub Apart : Matcher → Hit → Hit → Type 0
Apart m h k =
    group_at m h.record_index ≡ group_at m k.record_index
    → (group_size m h.record_index == 1) ≡ false
    → (h.record_index == k.record_index) ≡ false
    → (p : ℕ) → covers h p ≡ true
    → covers k p ≡ false

abbrev pub AllApart : Matcher → List Hit → Type 0
AllApart m [] = Unit
AllApart m (h ∷ hs) = All (Apart m h) hs × AllApart m hs

pub Apart-sym : (m : Matcher) (h k : Hit) → Apart m h k → Apart m k h
Apart-sym m h k apart same many other p here =
    let many' : (group_size m h.record_index == 1) ≡ false = rw same at many in
    elim (Bool-cases (covers h p)) [
      | inr free ↦ free
      | inl taken ↦
          absurd (ground (arith, apart (sym same) many' (ground (arith, other)) p taken, here))
    ]

owner-own :
    (g g' : String) (r p n start : ℕ) (os : List Owner)
    → owner_of g' p (own_positions g r start n os)
      ≡ (if str_eq g g' && (leb start p && ltb p (start + n)) then some r else owner_of g' p os)
owner-own g g' r p zero start os = ground arith
owner-own g g' r p (suc n) start os =
    owner-own g g' r p n (start + 1) (record { group = g; offset = start; owner = r } ∷ os)
    ∙ ground arith

no_other :
    (g : String) (r p n start : ℕ) (os : List Owner)
    → has_other g r os start n ≡ false
    → start ≤ p
    → p < start + n
    → is_other r (owner_of g p os) ≡ false
no_other g r p zero start os free low high = absurd (omega (arith, low, high))
no_other g r p (suc n) start os free low high = elim (Bool-cases (start == p)) [
  | inl at ↦
      let here : start ≡ p = ground (arith, at) in
      subst (λ (x : ℕ). is_other r (owner_of g x os) ≡ false) here (ground (arith, free))
  | inr away ↦
      no_other g r p n (start + 1) os (ground (arith, free)) (ground (arith, low, away))
        (omega (arith, high))
]

-- Positions that have no other owner keep their owners.
owner_kept :
    (g g' : String) (r p n start o : ℕ) (os : List Owner)
    → has_other g r os start n ≡ false
    → owner_of g' p os ≡ some o
    → owner_of g' p (own_positions g r start n os) ≡ some o
owner_kept g g' r p n start o os free e =
    elim (Bool-cases (str_eq g g' && (leb start p && ltb p (start + n)))) [
      | inr out ↦ owner-own g g' r p n start os ∙ ground (arith, out, e)
      | inl in_ ↦
          let same : g ≡ g' = ground (arith, in_, eq_iff g g') in
          let mine : is_other r (owner_of g' p os) ≡ false =
            subst (λ (x : String). is_other r (owner_of x p os) ≡ false) same
              (no_other g r p n start os free (ground (arith, in_)) (ground (arith, in_))) in
          let is_r : is_other r (some o) ≡ false =
            subst (λ (x : Option ℕ). is_other r x ≡ false) e mine in
          owner-own g g' r p n start os ∙ ground (arith, in_, is_r)
    ]

-- A hit of a group of one record, or one that owns its positions.
abbrev pub Owned : Matcher → List Owner → Hit → Type 0
Owned m os h =
    (group_size m h.record_index == 1) ≡ false
    → (p : ℕ) → covers h p ≡ true
    → owner_of (group_at m h.record_index) p os ≡ some h.record_index

pub record IsResolved (m : Matcher) (a : List Hit × List Owner) : Type 0 where
  pub owned : All (Owned m a.1) a.0
  pub apart : AllApart m a.0

AllApart-append :
    (m : Matcher) (hs : List Hit) (h : Hit)
    → AllApart m hs
    → All (λ k. Apart m k h) hs
    → AllApart m (hs ++ h ∷ [])
AllApart-append m [] h v w = (tt, tt)
AllApart-append m (k ∷ hs) h v w =
    (All-append (Apart m k) hs h v.0 w.0, AllApart-append m hs h v.1 w.1)

IsResolved-resolve_one :
    (m : Matcher) (n : ℕ) (c : ℕ × ℕ) (a : List Hit × List Owner)
    → IsResolved m a
    → IsResolved m (resolve_one m n c a)
unfolding resolve_one
IsResolved-resolve_one m n (start, r) (hits, os) v =
    if-ind (IsResolved m) (has_other (group_at m r) r os start n) (λ _. v)
      (λ free.
        let g : String = group_at m r in
        record {
          owned =
              All-append (Owned m (own_positions g r start n os)) hits (hit r start (start + n))
                (All-map (Owned m os) (Owned m (own_positions g r start n os)) hits
                  (λ k own many p here.
                    owner_kept g (group_at m k.record_index) r p n start k.record_index os free
                      (own many p here))
                  v.owned)
                (λ many p here. owner-own g g r p n start os ∙ ground (arith, eq_refl g, here));
          apart = AllApart-append m hits (hit r start (start + n)) v.apart (
              All-map (Owned m os) (λ k. Apart m k (hit r start (start + n))) hits
                (λ k own same many other p here. Apart-owned k same other p free (own many p here))
                v.owned);
        })
  where
    Apart-owned :
        (k : Hit)
        → group_at m k.record_index ≡ group_at m r
        → (k.record_index == r) ≡ false
        → (p : ℕ) → has_other (group_at m r) r os start n ≡ false
        → owner_of (group_at m k.record_index) p os ≡ some k.record_index
        → covers (hit r start (start + n)) p ≡ false
    Apart-owned k same other p free own = elim (Bool-cases (covers (hit r start (start + n)) p)) [
      | inr out ↦ out
      | inl taken ↦
          let owner : owner_of (group_at m r) p os ≡ some k.record_index =
            ap (λ (g : String). owner_of g p os) (sym same) ∙ own in
          let mine : is_other r (owner_of (group_at m r) p os) ≡ false =
            no_other (group_at m r) r p n start os free (ground (arith, taken))
              (ground (arith, taken)) in
          let is_r : is_other r (some k.record_index) ≡ false =
            subst (λ (x : Option ℕ). is_other r x ≡ false) owner mine in
          absurd (ground (arith, is_r, other))
    ]

IsResolved-resolve_bucket :
    (m : Matcher) (n : ℕ) (cs : List (ℕ × ℕ)) (a : List Hit × List Owner)
    → IsResolved m a
    → IsResolved m (resolve_bucket m n cs a)
unfolding resolve_bucket
IsResolved-resolve_bucket m n [] a v = v
IsResolved-resolve_bucket m n (c ∷ cs) a v =
    IsResolved-resolve_bucket m n cs (resolve_one m n c a) (IsResolved-resolve_one m n c a v)

pub IsResolved-resolve_buckets :
    (m : Matcher) (bs : Buckets) (a : List Hit × List Owner)
    → IsResolved m a
    → IsResolved m (resolve_buckets m bs a)
unfolding resolve_buckets
IsResolved-resolve_buckets m [] a v = v
IsResolved-resolve_buckets m (b ∷ bs) a v =
    IsResolved-resolve_buckets m bs (resolve_bucket m b.0 b.1 a)
      (IsResolved-resolve_bucket m b.0 b.1 a v)
