-- ===== src/ProxyChain/Select.antt =====
-- `select_chain_name` returns the first healthy candidate, or the preferred chain.
use el_sca_ansamble.Prelude.{
  ℕ, String, ◌≡◌, refl, ◌∙◌, Bool, true, false, Option, none, some, List, [], ◌∷◌, ◌++◌, All,
  All-append, Bool-cases, inl, inr, arith,
}
use el_sca_ansamble.Prelude.Int.{ℤ}
use el_sca_ansamble.Prelude.Keys.{
  ◌==◌, ==_iff, string_eq, contains, keys, lookup, Unrepeated, append-Unrepeated,
}
use el_sca_ansamble.ProxyChain.Chain.{ProxyChain}
use el_sca_ansamble.ProxyChain.Config.{ProxyRouter}
use el_sca_ansamble.ProxyChain.Router.{
  HealthState, Answer, Health, Picked, picked, exhausted, probe_chain, turn, first_healthy,
  add_declared, first_candidate, candidates_of, preferred_chain, name_of, select_chain_name,
}
use el_sca_ansamble.ProxyChain.Health.{probe_chain-IsRecorded}

-- The cache has a state for a chain, and the state is "ok" exactly when `b` holds.
pub record IsProbed (b : Bool) (health : Health) (name : String) : Type 0 where
  pub state : HealthState
  pub entry : lookup name health ≡ some state
  pub verdict : (state.status == "ok") ≡ b

-- A candidate is chosen when it is healthy and those before it are not; without a choice, no
-- candidate is healthy.
pub data Chosen (health : Health) : List String → Picked → Type 0 where
  all_down : Chosen health [] exhausted
  chosen :
      (name : String) (names : List String)
      → IsProbed true health name
      → Chosen health (name ∷ names) (picked name)
  passed_over :
      (name : String) (names : List String) (p : Picked)
      → IsProbed false health name
      → Chosen health names p
      → Chosen health (name ∷ names) p

abbrev AreDeclared : ProxyRouter → List String → Type 0
AreDeclared r names = All (λ n. contains n (keys r.chains) ≡ true) names

lookup_of_present :
    {V : Type 0} (k : String) (d : List (String × V))
    → contains k (keys d) ≡ true
    → (v : V) × (lookup k d ≡ some v)
unfolding contains lookup
lookup_of_present k [] h = absurd (ground (arith, h))
lookup_of_present k ((j, v) ∷ d) h = elim (Bool-cases (j == k)) [
  | inl e ↦ rw e (v, refl)
  | inr e ↦ rw e (lookup_of_present k d (ground (arith, h, ==_iff j k, ==_iff k j)))
]

add_declared-Unrepeated :
    (names ns found : List String) → Unrepeated found → Unrepeated (add_declared names ns found)
unfolding add_declared
add_declared-Unrepeated names [] found u = u
add_declared-Unrepeated names (n ∷ ns) found u = elim (Bool-cases (contains n found)) [
  | inl e ↦ rw e (ground (arith, add_declared-Unrepeated names ns found u))
  | inr e ↦ elim (Bool-cases (contains n names)) [
    | inl d ↦
        rw (e, d)
          (add_declared-Unrepeated names ns (found ++ n ∷ []) (append-Unrepeated n found e u))
    | inr d ↦ rw (e, d) (add_declared-Unrepeated names ns found u)
  ]
]

add_declared-AreDeclared :
    (r : ProxyRouter) (ns found : List String)
    → AreDeclared r found
    → AreDeclared r (add_declared (keys r.chains) ns found)
unfolding add_declared
add_declared-AreDeclared r [] found d = d
add_declared-AreDeclared r (n ∷ ns) found d = elim (Bool-cases (contains n (keys r.chains))) [
  | inl e ↦ elim (Bool-cases (contains n found)) [
    | inl f ↦ rw (e, f) (add_declared-AreDeclared r ns found d)
    | inr f ↦
        rw (e, f)
          (add_declared-AreDeclared r ns (found ++ n ∷ [])
            (All-append (λ m. contains m (keys r.chains) ≡ true) found (n ∷ []) d (e, tt)))
  ]
  | inr e ↦ rw e (add_declared-AreDeclared r ns found d)
]

first_candidate-AreDeclared :
    (r : ProxyRouter) (preferred : Option String)
    → AreDeclared r (first_candidate (keys r.chains) preferred)
first_candidate-AreDeclared r none = tt
first_candidate-AreDeclared r (some p) = elim (Bool-cases (contains p (keys r.chains))) [
  | inl e ↦ elim (Bool-cases (p == "")) [ inl f ↦ rw f tt | inr f ↦ rw (f, e) (e, tt) ]
  | inr e ↦ ground (arith, e)
]

first_candidate-Unrepeated :
    (names : List String) (preferred : Option String) → Unrepeated (first_candidate names preferred)
unfolding contains
first_candidate-Unrepeated names none = tt
first_candidate-Unrepeated names (some p) = ground (arith)

candidates_of-Unrepeated :
    (r : ProxyRouter) (preferred : Option String) → Unrepeated (candidates_of r preferred)
unfolding candidates_of
candidates_of-Unrepeated r preferred = add_declared-Unrepeated (keys r.chains) ("direct" ∷ []) _ (
    add_declared-Unrepeated (keys r.chains) r.policies.failover_order _
      (first_candidate-Unrepeated (keys r.chains) preferred))

candidates_of-AreDeclared :
    (r : ProxyRouter) (preferred : Option String) → AreDeclared r (candidates_of r preferred)
unfolding candidates_of
candidates_of-AreDeclared r preferred = add_declared-AreDeclared r ("direct" ∷ []) _ (
    add_declared-AreDeclared r r.policies.failover_order _
      (first_candidate-AreDeclared r preferred))

module _ {S : Type 0} (monotonic : S → ℕ × S)
    (get : List (String × String) → String → ℤ → S → Answer × S) where
  turn-others :
      (r : ProxyRouter) (name m : String) (c : Option ProxyChain)
      (rest : Health × S → Picked × (Health × S)) (w : Health × S)
      → (name == m) ≡ false
      → ((v : Health × S) → lookup m (rest v).1.0 ≡ lookup m v.0)
      → lookup m (turn monotonic get r name c rest w).1.0 ≡ lookup m w.0
  unfolding turn
  turn-others r name m none rest w h k = refl
  turn-others r name m (some chain) rest w h k =
      let probed = probe_chain monotonic get r name chain false w in
      let kept = (probe_chain-IsRecorded monotonic get r name chain false w).others m h in
      elim (Bool-cases (probed.0.status == "ok")) [
        | inl e ↦ rw e kept
        | inr e ↦ rw e (k probed.1 ∙ kept)
      ]

  -- The loop changes no entry of a name that is not among the candidates.
  first_healthy-others :
      (r : ProxyRouter) (names : List String) (m : String) (w : Health × S)
      → contains m names ≡ false
      → lookup m (first_healthy monotonic get r names w).1.0 ≡ lookup m w.0
  unfolding first_healthy contains
  first_healthy-others r [] m w h = refl
  first_healthy-others r (name ∷ names) m w h =
      turn-others r name m (lookup name r.chains) (first_healthy monotonic get r names) w
        (ground (arith, h, ==_iff m name, ==_iff name m))
        (λ v. first_healthy-others r names m v (ground (arith, h)))

  turn-Chosen :
      (r : ProxyRouter) (name : String) (names : List String) (chain : ProxyChain)
      (rest : Health × S → Picked × (Health × S)) (w : Health × S)
      → ((v : Health × S) → lookup name (rest v).1.0 ≡ lookup name v.0)
      → ((v : Health × S) → Chosen (rest v).1.0 names (rest v).0)
      → let result = turn monotonic get r name (some chain) rest w in
        Chosen result.1.0 (name ∷ names) result.0
  unfolding turn
  turn-Chosen r name names chain rest w others choice =
      let probed = probe_chain monotonic get r name chain false w in
      let recorded = probe_chain-IsRecorded monotonic get r name chain false w in
      elim (Bool-cases (probed.0.status == "ok")) [
        | inl e ↦
            rw e
              (chosen name names (record { state = probed.0; entry = recorded.entry; verdict = e }))
        | inr e ↦ rw e (
            passed_over name names (rest probed.1).0
              (record { state = probed.0; entry = others probed.1 ∙ recorded.entry; verdict = e })
              (choice probed.1))
      ]

  first_healthy-Chosen :
      (r : ProxyRouter) (names : List String) (w : Health × S)
      → Unrepeated names
      → AreDeclared r names
      → let result = first_healthy monotonic get r names w in Chosen result.1.0 names result.0
  unfolding first_healthy
  first_healthy-Chosen r [] w u d = all_down
  first_healthy-Chosen r (name ∷ names) w u d =
      let found = lookup_of_present name r.chains d.0 in
      rw found.1 (
        turn-Chosen r name names found.0 (first_healthy monotonic get r names) w
          (λ v. first_healthy-others r names name v u.0)
          (λ v. first_healthy-Chosen r names v u.1 d.1))

  -- The loop runs into no `KeyError`; it picks the first candidate that its probe finds "ok", and
  -- the preferred chain is returned when it finds none: the cache that the call leaves behind
  -- shows the candidates passed over as not "ok" and the chosen one as "ok".
  pub select_chain_name-Chosen :
      (r : ProxyRouter) (source : Option String) (w : Health × S)
      → let preferred = preferred_chain r source in
        let result = select_chain_name monotonic get r source w in
        (p : Picked) × (Chosen result.1.0 (candidates_of r preferred) p
          × (result.0 ≡ name_of preferred p))
  unfolding select_chain_name
  select_chain_name-Chosen r source w =
      let preferred = preferred_chain r source in
      let found = first_healthy monotonic get r (candidates_of r preferred) w in
      (
        found.0,
        (
          first_healthy-Chosen r (candidates_of r preferred) w
              (candidates_of-Unrepeated r preferred) (candidates_of-AreDeclared r preferred),
          refl,
        ),
      )
