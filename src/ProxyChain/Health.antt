-- ===== src/ProxyChain/Health.antt =====
-- The cache of health states: a probe records what it returns.
use el_sca_ansamble.Prelude.{
  ℕ, String, ◌≡◌, refl, Bool, true, false, Option, none, some, List, arith,
}
use el_sca_ansamble.Prelude.Int.{ℤ}
use el_sca_ansamble.Prelude.Keys.{◌==◌, ==_refl, string_eq, lookup, lookup-insert}
use el_sca_ansamble.ProxyChain.Chain.{ProxyChain}
use el_sca_ansamble.ProxyChain.Config.{ProxyRouter}
use el_sca_ansamble.ProxyChain.Router.{
  HealthState, Answer, Health, do_probe, is_fresh, usable, probe_with, probe_chain,
}

-- After a probe of `name`, the cache holds the returned state under that name, and every other
-- entry is as before.
pub record IsRecorded {S : Type 0} (name : String) (before : Health)
    (result : HealthState × (Health × S)) : Type 0 where
  pub entry : lookup name result.1.0 ≡ some result.0
  pub others : (m : String) → (name == m) ≡ false → lookup m result.1.0 ≡ lookup m before

usable_of_cached :
    (r : ProxyRouter) (force : Bool) (now : ℕ) (cached : Option HealthState) (state : HealthState)
    → usable r force now cached ≡ some state
    → cached ≡ some state
unfolding usable
usable_of_cached r true now cached state h = ground (arith, h)
usable_of_cached r false now none state h = h
usable_of_cached r false now (some cached) state h = ground (arith, h)

module _ {S : Type 0} (monotonic : S → ℕ × S)
    (get : List (String × String) → String → ℤ → S → Answer × S) where
  probe_with-IsRecorded :
      (r : ProxyRouter) (name : String) (chain : ProxyChain) (now : ℕ) (cached : Option HealthState)
      (w : Health × S)
      → ((state : HealthState) → cached ≡ some state → lookup name w.0 ≡ some state)
      → IsRecorded name w.0 (probe_with monotonic get r name chain now cached w)
  unfolding probe_with
  probe_with-IsRecorded r name chain now (some cached) w h = record {
    entry = h cached refl;
    others = λ m d. refl;
  }
  probe_with-IsRecorded r name chain now none (health, s) h =
      let state = record ((do_probe monotonic get r chain s).0) { checked_at = now } in
      record {
        entry = rw (lookup-insert name name state health, ==_refl name) refl;
        others = λ m d. rw (lookup-insert name m state health, d) refl;
      }

  -- A probe leaves the state it returns in the cache under the chain's name and changes no other
  -- entry of the cache.
  pub probe_chain-IsRecorded :
      (r : ProxyRouter) (name : String) (chain : ProxyChain) (force : Bool) (w : Health × S)
      → IsRecorded name w.0 (probe_chain monotonic get r name chain force w)
  unfolding probe_chain
  probe_chain-IsRecorded r name chain force (health, s) =
      let now = (monotonic s).0 in
      let s' = (monotonic s).1 in
      probe_with-IsRecorded r name chain now (usable r force now (lookup name health)) (health, s')
        (λ state. usable_of_cached r force now (lookup name health) state)

  -- A probe that is not forced and finds a state younger than the TTL in the cache returns it,
  -- leaves the cache alone and does nothing in the world but read the clock once.
  pub probe_chain-cached :
      (r : ProxyRouter) (name : String) (chain : ProxyChain) (w : Health × S) (cached : HealthState)
      → lookup name w.0 ≡ some cached
      → is_fresh r (monotonic w.1).0 cached ≡ true
      → probe_chain monotonic get r name chain false w ≡ (cached, (w.0, (monotonic w.1).1))
  unfolding probe_chain usable probe_with
  probe_chain-cached r name chain w cached h f = rw (h, f) refl
