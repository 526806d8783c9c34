-- ===== src/ProxyChain/Declared.antt =====
-- resilient_updates/proxy_chain.py, from_config: the names that a section refers to, and the chains
-- that it declares, as memberships.
use el_sca_ansamble.Prelude.{
  String, ◌≡◌, ◌≢◌, ◌⊎◌, refl, ap, ◌∙◌, true, Option, none, some, List, [], ◌∷◌, In, Bool-cases,
  inl, inr, arith,
}
use el_sca_ansamble.Prelude.Keys.{◌==◌, ==_iff, string_eq, contains, keys, In-of_contains, not_In}
use el_sca_ansamble.ProxyChain.Chain.{RawChain}
use el_sca_ansamble.ProxyChain.Config.{
  RawPolicies, Section, ProxyRouter, Undeclared, undeclared_default, undeclared_pin,
  undeclared_entry, Parsed, legacy, value_error, router, policies_from_dict, chains_from,
  per_source_from, check_default, check_pins, check_order, raise_or, is_legacy, no_proxy_of,
  checked, from_config,
}

-- The failover order that the section asks for.
abbrev pub order_of : Option RawPolicies → List String
order_of none = []
order_of (some raw) = raw.failover_order

-- Every name that a router refers to is one of the chains that the section declares.
pub record IsDeclared (section : Section) (r : ProxyRouter) : Type 0 where
  pub names : keys r.chains ≡ keys section.chains
  pub default :
      (name : String) → r.default_chain ≡ some name → (name ≡ "") ⊎ In name (keys section.chains)
  pub pins : (src chain : String) → In (src, chain) r.per_source → In chain (keys section.chains)
  pub order : (n : String) → In n (order_of section.policies) → In n (keys section.chains)
  pub kept : r.policies.failover_order ≡ order_of section.policies

-- The name that an exception reports is one that the section refers to and does not declare.
abbrev pub Offends : Section → Undeclared → Type 0
Offends section (undeclared_default name) =
    (section.default_chain ≡ some name) × (name ≢ "") × (¬ In name (keys section.chains))
Offends section (undeclared_pin src chain) =
    In (src, chain) (per_source_from [] section.per_source) × (¬ In chain (keys section.chains))
Offends section (undeclared_entry n) =
    In n (order_of section.policies) × (¬ In n (keys section.chains))

abbrev pub IsJudged : Section → Parsed → Type 0
IsJudged section legacy = (section.chains ≡ []) × (section.policies ≡ none)
IsJudged section (value_error u) = Offends section u
IsJudged section (router r) = IsDeclared section r

keys-chains_from : (raw : List (String × RawChain)) → keys (chains_from raw) ≡ keys raw
unfolding chains_from
keys-chains_from [] = refl
keys-chains_from ((name, body) ∷ raw) = ap (λ l. name ∷ l) (keys-chains_from raw)

order-policies_from_dict :
    (o : Option RawPolicies) → (policies_from_dict o).failover_order ≡ order_of o
unfolding policies_from_dict
order-policies_from_dict none = refl
order-policies_from_dict (some raw) = refl

module _ (names : List String) where
  -- What a check says of what it went through, and of what it stopped at.
  abbrev Checked : Type 0 → (Undeclared → Type 0) → Option Undeclared → Type 0
  Checked P Q none = P
  Checked P Q (some u) = Q u

  abbrev BadDefault : Option String → Undeclared → Type 0
  BadDefault d (undeclared_default name) = (d ≡ some name) × (name ≢ "") × (¬ In name names)
  BadDefault d _ = ⊥

  abbrev BadPin : List (String × String) → Undeclared → Type 0
  BadPin d (undeclared_pin src chain) = In (src, chain) d × (¬ In chain names)
  BadPin d _ = ⊥

  abbrev BadEntry : List String → Undeclared → Type 0
  BadEntry order (undeclared_entry n) = In n order × (¬ In n names)
  BadEntry order _ = ⊥

  abbrev GoodDefault : Option String → Type 0
  GoodDefault d = (name : String) → d ≡ some name → (name ≡ "") ⊎ In name names

  abbrev GoodPins : List (String × String) → Type 0
  GoodPins d = (src chain : String) → In (src, chain) d → In chain names

  abbrev GoodOrder : List String → Type 0
  GoodOrder order = (n : String) → In n order → In n names

  check_default-Checked :
      (d : Option String) → Checked (GoodDefault d) (BadDefault d) (check_default names d)
  unfolding check_default
  check_default-Checked none = λ name e. cc
  check_default-Checked (some n) = elim (Bool-cases (n == "")) [
    | inl e ↦ rw e (λ name f. inl (ground (arith, ==_iff n "")))
    | inr e ↦ rw e (elim (Bool-cases (contains n names)) [
      | inl i ↦ rw i (λ name f.
          inr (let same : n ≡ name = ground arith in rw (← same) (In-of_contains n names i)))
      | inr i ↦ rw i ((refl, λ f. absurd (ground (arith, ==_iff n "")), not_In n names i))
    ])
  ]

  later_pin :
      (p : String × String) (d : List (String × String)) (u : Undeclared)
      → BadPin d u
      → BadPin (p ∷ d) u
  later_pin p d (undeclared_pin src chain) h = (inr h.0, h.1)
  later_pin p d (undeclared_default name) h = h
  later_pin p d (undeclared_entry n) h = h

  check_pins-Checked :
      (d : List (String × String)) → Checked (GoodPins d) (BadPin d) (check_pins names d)
  unfolding check_pins
  check_pins-Checked [] = λ src chain i. absurd i
  check_pins-Checked ((s, c) ∷ d) = elim (Bool-cases (contains c names)) [
    | inl i ↦ rw i (more (check_pins names d) (In-of_contains c names i) (check_pins-Checked d))
    | inr i ↦ rw i ((inl refl, not_In c names i))
  ]
    where
      more :
          (o : Option Undeclared)
          → In c names
          → Checked (GoodPins d) (BadPin d) o
          → Checked (GoodPins ((s, c) ∷ d)) (BadPin ((s, c) ∷ d)) o
      more none i h = λ src chain j. elim j [
        | inl e ↦ let same : c ≡ chain = ground arith in rw (← same) i
        | inr k ↦ h src chain k
      ]
      more (some u) i h = later_pin (s, c) d u h

  later_entry :
      (m : String) (order : List String) (u : Undeclared)
      → BadEntry order u
      → BadEntry (m ∷ order) u
  later_entry m order (undeclared_entry n) h = (inr h.0, h.1)
  later_entry m order (undeclared_default name) h = h
  later_entry m order (undeclared_pin src chain) h = h

  check_order-Checked :
      (order : List String) → Checked (GoodOrder order) (BadEntry order) (check_order names order)
  unfolding check_order
  check_order-Checked [] = λ n i. absurd i
  check_order-Checked (m ∷ order) = elim (Bool-cases (contains m names)) [
    | inl i ↦
        rw i (more (check_order names order) (In-of_contains m names i) (check_order-Checked order))
    | inr i ↦ rw i ((inl refl, not_In m names i))
  ]
    where
      more :
          (o : Option Undeclared)
          → In m names
          → Checked (GoodOrder order) (BadEntry order) o
          → Checked (GoodOrder (m ∷ order)) (BadEntry (m ∷ order)) o
      more none i h =
          λ n j. elim j [ inl e ↦ let same : m ≡ n = ground arith in rw (← same) i | inr k ↦ h n k ]
      more (some u) i h = later_entry m order u h

module _ (section : Section) where
  abbrev built_router : ProxyRouter
  built_router = record {
    chains = chains_from section.chains;
    policies = policies_from_dict section.policies;
    default_chain = section.default_chain;
    per_source = per_source_from [] section.per_source;
    no_proxy = no_proxy_of section.no_proxy;
  }

  abbrev names_of : List String
  names_of = keys section.chains

  raise-IsJudged :
      (order : List String) (d p o : Option Undeclared)
      → order ≡ order_of section.policies
      → built_router.policies.failover_order ≡ order
      → Checked names_of
          (GoodDefault names_of section.default_chain)
          (BadDefault names_of section.default_chain)
          d
      → Checked names_of
          (GoodPins names_of built_router.per_source)
          (BadPin names_of built_router.per_source)
          p
      → Checked names_of (GoodOrder names_of order) (BadEntry names_of order) o
      → IsJudged section (raise_or d (raise_or p (raise_or o (router built_router))))
  raise-IsJudged order (some (undeclared_default name)) p o e f hd hp ho = hd
  raise-IsJudged order (some (undeclared_pin src chain)) p o e f hd hp ho = absurd hd
  raise-IsJudged order (some (undeclared_entry n)) p o e f hd hp ho = absurd hd
  raise-IsJudged order none (some (undeclared_pin src chain)) o e f hd hp ho = hp
  raise-IsJudged order none (some (undeclared_default name)) o e f hd hp ho = absurd hp
  raise-IsJudged order none (some (undeclared_entry n)) o e f hd hp ho = absurd hp
  raise-IsJudged order none none (some (undeclared_entry n)) e f hd hp ho = (rw (← e) ho.0, ho.1)
  raise-IsJudged order none none (some (undeclared_default name)) e f hd hp ho = absurd ho
  raise-IsJudged order none none (some (undeclared_pin src chain)) e f hd hp ho = absurd ho
  raise-IsJudged order none none none e f hd hp ho = record {
    names = keys-chains_from section.chains;
    default = hd;
    pins = hp;
    order = λ n i. ho n (rw e i);
    kept = f ∙ e;
  }

  -- `from_config` returns no router only for a section with neither chains nor policies. An exception
  -- names a default chain, a pinned chain or an entry of the failover order that the section refers to
  -- and does not declare. In a router that it returns, the default chain is absent, empty or declared
  -- in the section, and so is every pinned chain and every entry of the section's failover order.
  pub from_config-IsDeclared : IsJudged section (from_config section)
  unfolding from_config checked policies_from_dict
  from_config-IsDeclared =
      let names = keys-chains_from section.chains in
      let same = order-policies_from_dict section.policies in
      elim (Bool-cases (is_legacy section.chains section.policies)) [
        | inl e ↦ rw e (is_legacy-empty section.chains section.policies e)
        | inr e ↦
            rw (e, names, same)
              (raise-IsJudged (order_of section.policies) _ _ _ refl same
                (check_default-Checked names_of section.default_chain)
                (check_pins-Checked names_of built_router.per_source)
                (check_order-Checked names_of (order_of section.policies)))
      ]
    where
      is_legacy-empty :
          (cs : List (String × RawChain)) (o : Option RawPolicies)
          → is_legacy cs o ≡ true
          → (cs ≡ []) × (o ≡ none)
      is_legacy-empty [] none h = (refl, refl)
      is_legacy-empty [] (some p) h = cc
      is_legacy-empty (c ∷ cs) o h = cc
