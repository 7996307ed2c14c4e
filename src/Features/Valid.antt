-- ===== src/Features/Valid.antt =====
-- Sound controllers: sorted allowlists, no switch without its capability, and files from which a
-- start gives the state again.
use mathlib.Core.Path.{fun_ext}
use mathlib.Core.Logic.{if_pos, if_neg}
use qq_violation_bot.Prelude.{
  ℕ, ◌<◌, ◌≡◌, refl, subst, ap, ◌∙◌, Bool, true, false, Option, none, some, List, [], ◌∷◌, ◌++◌,
  map, String, ltb, if◌then◌else◌, if-ind, Bool-cases, Option-cases, inl, inr, All, arith,
}
use qq_violation_bot.Features.Types.{
  Switch, FeatureState, Capabilities, Switch-discrete, business_enabled,
  llm_gateway_business_enabled, hive_member_monitor_enabled, content_alert_enabled, FeatureError,
}
use qq_violation_bot.Features.Lists.{
  IsRising, IsRising-sorted_set, sorted_set-sorted, sorted_set, insert_sorted, sorted_set-append,
  All-snoc, IsRising-positive,
}
use qq_violation_bot.Features.Files.{
  Value, Raw, Fault, Controller, boolean, array, other, is_capable, without_incapable, first_state,
  positive_values, sorted_allowlist, load_state, load_allowlist, as_dict, open_state, start,
  replace_state, as_positive_int, no_fault, at_backup, at_file, all, is_loaded, load_switch,
  all_switches,
}
use qq_violation_bot.Features.State.{get_change, validate_switch, validate_switches, with_changes}

pub record IsListed (s : FeatureState) : Type 0 where
  pub groups : IsRising 0 s.group_chat_allowed_group_ids
  pub users : IsRising 0 s.private_chat_allowed_user_ids

abbrev pub IsCapable : Capabilities → FeatureState → Type 0
IsCapable caps s = (x : Switch) → is_capable caps x ≡ false → s.switch x ≡ false

pub without_incapable-IsCapable :
    (caps : Capabilities) (s : FeatureState) → IsCapable caps (without_incapable caps s)
without_incapable-IsCapable caps s x h = rw h refl

without_incapable-same :
    (caps : Capabilities) (s : FeatureState) → IsCapable caps s → without_incapable caps s ≡ s
without_incapable-same caps s h =
    ap (λ (f : Switch → Bool). record s { switch = f })
      (fun_ext (λ (x : Switch). elim (Bool-cases (is_capable caps x)) [
        | inl can ↦ rw can refl
        | inr cannot ↦ rw (cannot, h x cannot) refl
      ]))

-- What a validated change turns on is within the capabilities.
validate_switch-capable :
    (caps : Capabilities) (x : Switch)
    → validate_switch caps x true ≡ none
    → is_capable caps x ≡ true
validate_switch-capable caps business_enabled h = ground (arith, h)
validate_switch-capable caps llm_gateway_business_enabled h = ground (arith, h)
validate_switch-capable caps hive_member_monitor_enabled h = ground (arith, h)
validate_switch-capable caps content_alert_enabled h = ground (arith, h)
validate_switch-capable caps _ h = refl

get_change-capable :
    (caps : Capabilities) (x : Switch) (changes : List (Switch × Bool))
    → validate_switches caps changes ≡ none
    → get_change x changes ≡ some true
    → is_capable caps x ≡ true
unfolding validate_switches get_change
get_change-capable caps x [] valid h = absurd (cc)
get_change-capable caps x ((y, b) ∷ changes) valid h =
    elim (Option-cases (validate_switch caps y b)) [
      | inr (e, bad) ↦
          let wrong : ◌≡◌ {A = Option FeatureError} (some e) none =
            rw (bad, validate_switches) at valid in
          absurd (cc)
      | inl good ↦ elim (Switch-discrete x y) [
        | yes same ↦
            let on : some b ≡ some true =
              rw (if_pos (Switch-discrete x y) same (some b) (get_change x changes)) at h in
            let same_value : b ≡ true = cc in
            rw same (validate_switch-capable caps y (rw same_value at good))
        | no other_ ↦
            get_change-capable caps x changes (rw (good, validate_switches) at valid)
              (rw (if_neg (Switch-discrete x y) other_ (some b) (get_change x changes)) at h)
      ]
    ]

pub IsCapable-with_changes :
    (caps : Capabilities) (s : FeatureState) (changes : List (Switch × Bool)) (actor at : String)
    → validate_switches caps changes ≡ none
    → IsCapable caps s
    → IsCapable caps (with_changes s changes actor at)
IsCapable-with_changes caps s changes actor at valid v x cannot =
    elim (Option-cases (get_change x changes)) [
      | inl same ↦ rw same (v x cannot)
      | inr (b, e) ↦ rw e (elim (Bool-cases b) [
        | inr off ↦ off
        | inl on ↦ let can = get_change-capable caps x changes valid (e ∙ ap some on) in absurd (cc)
      ])
    ]

module _ {Input : Type 0} (read : Input → Option ℕ) (print : ℕ → Input) where
  pub as_positive_int-positive : (v : Input) (n : ℕ) → as_positive_int read print v ≡ some n → 0 < n
  as_positive_int-positive v n h = elim (Option-cases (read v)) [
    | inl bad ↦
        let wrong : ◌≡◌ {A = Option ℕ} none (some n) = rw (bad, as_positive_int) at h in absurd (cc)
    | inr (m, e) ↦
        let both : (if ltb 0 m then some m else none) ≡ some n = rw (e, as_positive_int) at h in
        ground (arith, both)
  ]

  positive_values-positive :
      (vs : List Input) (ns : List ℕ)
      → positive_values read print vs ≡ some ns
      → All (λ n. 0 < n) ns
  unfolding positive_values
  positive_values-positive [] ns h =
      let ends : ◌≡◌ {A = List ℕ} [] ns = cc in subst (All (λ n. 0 < n)) ends tt
  positive_values-positive (v ∷ vs) ns h = elim (Option-cases (as_positive_int read print v)) [
    | inl bad ↦
        let wrong : ◌≡◌ {A = Option (List ℕ)} none (some ns) = rw (bad, positive_values) at h in
        absurd (cc)
    | inr (n, e) ↦ elim (Option-cases (positive_values read print vs)) [
      | inl bad ↦
          let wrong : ◌≡◌ {A = Option (List ℕ)} none (some ns) =
            rw (e, bad, positive_values) at h in
          absurd (cc)
      | inr (rest, f) ↦
          let all_ : ◌≡◌ {A = Option (List ℕ)} (some (n ∷ rest)) (some ns) =
            rw (e, f, positive_values) at h in
          let ends : n ∷ rest ≡ ns = cc in
          subst (All (λ m. 0 < m)) ends
            (as_positive_int-positive v n e, positive_values-positive vs rest f)
    ]
  ]

  sorted_allowlist-IsRising :
      (vs : List Input) (ids : List ℕ) → sorted_allowlist read print vs ≡ some ids → IsRising 0 ids
  unfolding sorted_allowlist
  sorted_allowlist-IsRising vs ids h = elim (Option-cases (positive_values read print vs)) [
    | inl bad ↦
        let wrong : ◌≡◌ {A = Option (List ℕ)} none (some ids) = rw (bad, sorted_allowlist) at h in
        absurd (cc)
    | inr (ns, e) ↦
        let all_ : ◌≡◌ {A = Option (List ℕ)} (some (sorted_set ns)) (some ids) =
          rw (e, sorted_allowlist) at h in
        let ends : sorted_set ns ≡ ids = cc in
        subst (IsRising 0) ends (IsRising-sorted_set ns (positive_values-positive vs ns e))
  ]

  load_allowlist-IsRising :
      (v : Option (Value Input)) (ids : List ℕ)
      → load_allowlist read print v ≡ some ids
      → IsRising 0 ids
  load_allowlist-IsRising none ids h = absurd (cc)
  load_allowlist-IsRising (some (boolean b)) ids h = absurd (cc)
  load_allowlist-IsRising (some (array vs)) ids h = sorted_allowlist-IsRising vs ids h
  load_allowlist-IsRising (some other) ids h = absurd (cc)

  -- The state of a file, if any, has sorted allowlists.
  abbrev Listed : Option FeatureState → Type 0
  Listed none = Unit
  Listed (some s) = IsListed s

  load_state-Listed :
      (file : Option (Raw Input)) (defaults : FeatureState)
      → Listed (load_state read print file defaults)
  unfolding load_state
  load_state-Listed none defaults = tt
  load_state-Listed (some raw) defaults =
      if-ind Listed (all (λ x. is_loaded (load_switch defaults raw x)) all_switches)
        (λ _. elim (Option-cases (load_allowlist read print raw.groups)) [
          | inl bad ↦ rw bad tt
          | inr (groups, e) ↦ elim (Option-cases (load_allowlist read print raw.users)) [
            | inl bad ↦ rw (e, bad) tt
            | inr (users, f) ↦
                rw (e, f)
                  (record {
                    groups = load_allowlist-IsRising raw.groups groups e;
                    users = load_allowlist-IsRising raw.users users f;
                  })
          ]
        ])
        (λ _. tt)

  first_state-IsListed :
      (a b : Option FeatureState) (defaults : FeatureState)
      → Listed a
      → Listed b
      → IsListed defaults
      → IsListed (first_state a b defaults)
  first_state-IsListed (some s) b defaults h k l = h
  first_state-IsListed none (some s) defaults h k l = k
  first_state-IsListed none none defaults h k l = l

  pub record IsSound (defaults : FeatureState) (c : Controller Input) : Type 0 where
    pub listed : IsListed c.state
    pub capable : IsCapable c.capabilities c.state
    pub restores : open_state read print c.capabilities defaults c.file c.backup ≡ c.state

  pub start-IsSound :
      (caps : Capabilities) (defaults : FeatureState) (file backup : Option (Raw Input))
      → IsListed defaults
      → IsSound defaults (start read print caps defaults file backup)
  unfolding start open_state
  start-IsSound caps defaults file backup h =
      let s =
        first_state (load_state read print file defaults) (load_state read print backup defaults)
          defaults in
      let l =
        first_state-IsListed _ _ defaults (load_state-Listed file defaults)
          (load_state-Listed backup defaults) h in
      record {
        listed = record { groups = l.groups; users = l.users };
        capable = without_incapable-IsCapable caps s;
        restores = refl;
      }

module _ {Input : Type 0} (read : Input → Option ℕ) (print : ℕ → Input)
    (read-print : (n : ℕ) → read (print n) ≡ some n) where
  positive_values-print :
      (ids : List ℕ) → All (λ n. 0 < n) ids → positive_values read print (map print ids) ≡ some ids
  unfolding positive_values
  positive_values-print [] h = refl
  positive_values-print (n ∷ ids) h =
      let positive : ltb 0 n ≡ true = ground (arith, h.0) in
      rw (read-print n, positive, positive_values-print ids h.1, positive_values) refl

  sorted_allowlist-print :
      (ids : List ℕ) → IsRising 0 ids → sorted_allowlist read print (map print ids) ≡ some ids
  unfolding sorted_allowlist
  sorted_allowlist-print ids r =
      rw
        (
          positive_values-print ids (IsRising-positive 0 ids r),
          sorted_set-sorted 0 ids r,
          sorted_allowlist,
        )
        refl

  map_snoc : (n : ℕ) (ids : List ℕ) → map print ids ++ print n ∷ [] ≡ map print (ids ++ n ∷ [])
  map_snoc n [] = refl
  map_snoc n (x ∷ ids) = ap (λ rest. print x ∷ rest) (map_snoc n ids)

  -- An id more: the list of add_allowed.
  pub sorted_allowlist-insert_sorted :
      (n : ℕ) (ids : List ℕ)
      → IsRising 0 ids
      → 0 < n
      → sorted_allowlist read print (map print ids ++ print n ∷ []) ≡ some (insert_sorted n ids)
  unfolding sorted_allowlist
  sorted_allowlist-insert_sorted n ids r h =
      rw
        (
          map_snoc n ids,
          positive_values-print (ids ++ n ∷ []) (All-snoc n ids (IsRising-positive 0 ids r) h),
          sorted_set-append 0 n ids r,
          sorted_allowlist,
        )
        refl

  -- What _write_json writes is loaded as the state that it was.
  pub load_state-as_dict :
      (s defaults : FeatureState)
      → IsListed s
      → load_state read print (some (as_dict read print s)) defaults ≡ some s
  unfolding load_state
  load_state-as_dict s defaults l =
      rw
        (
          sorted_allowlist-print s.group_chat_allowed_group_ids l.groups,
          sorted_allowlist-print s.private_chat_allowed_user_ids l.users,
        )
        refl

  pub IsSound-replace_state :
      (defaults : FeatureState) (fault : Fault) (c : Controller Input) (s : FeatureState)
      → IsSound read print defaults c
      → IsListed s
      → IsCapable c.capabilities s
      → IsSound read print defaults (replace_state read print fault c s).1
  unfolding replace_state open_state
  IsSound-replace_state defaults at_backup c s v l k = v
  IsSound-replace_state defaults at_file c s v l k = record {
    listed = v.listed;
    capable = v.capable;
    restores = elim (Option-cases (load_state read print c.file defaults)) [
      | inl lost ↦
          rw (lost, load_state-as_dict c.state defaults v.listed)
            (without_incapable-same c.capabilities c.state v.capable)
      | inr (t, there) ↦
          let same : without_incapable c.capabilities t ≡ c.state =
            rw (there, open_state) at v.restores in
          rw there same
    ];
  }
  IsSound-replace_state defaults no_fault c s v l k = record {
    listed = l;
    capable = k;
    restores = rw (load_state-as_dict s defaults l) (without_incapable-same c.capabilities s k);
  }
