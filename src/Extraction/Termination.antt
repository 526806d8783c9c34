-- ===== src/Extraction/Termination.antt =====
-- The loop of extract_artifacts: what a pass puts at the end of the queue, what every pass keeps,
-- and that the queue runs empty.
use mathlib.Core.List.{append_assoc, append-nil}
use el_sca_ansamble.Prelude.{
  ℕ, zero, suc, ◌+◌, ◌≤◌, ◌<◌, String, ◌≡◌, refl, sym, ap, ◌∙◌, true, Option, none, some, List, [],
  ◌∷◌, ◌++◌, All, All-append, All-map, inl, inr, arith, Bool-cases, ltb, map,
}
use el_sca_ansamble.Prelude.Keys.{list_eq, contains, string_eq}
use el_sca_ansamble.Extraction.Names.{PathParts}
use el_sca_ansamble.Extraction.Members.{Step}
use el_sca_ansamble.Extraction.Archive.{Unpacking, find_archives}
use el_sca_ansamble.Extraction.Queue.{
  Options, World, Item, Progress, enqueue, conclude, take_archive, pass, drain, first_queue,
  nothing_yet, new_item,
}
use el_sca_ansamble.Extraction.Manifest.{Manifest, extract_artifacts, manifest_of, with_manifest}

-- Entries one level deeper than `d`, which is no last level.
abbrev Deeper : ℕ → ℕ → PathParts × ℕ → Type 0
Deeper limit d e = (e.1 ≡ suc d) × (d < limit)

abbrev Bounded : ℕ → ℕ → PathParts × ℕ → Type 0
Bounded k limit e = (k ≤ e.1) × (e.1 ≤ limit)

queued-Deeper :
    (limit d : ℕ) (ps : List PathParts)
    → d < limit
    → All (Deeper limit d) (map (λ p. (p, suc d)) ps)
queued-Deeper limit d [] h = tt
queued-Deeper limit d (p ∷ ps) h = ((refl, h), queued-Deeper limit d ps h)

enqueue-Deeper :
    (o : Options) (world : World) (d : ℕ) (target : PathParts) (u : Unpacking)
    (seen : List PathParts)
    → All (Deeper o.max_depth d) (enqueue o world d target u seen)
unfolding enqueue
enqueue-Deeper o world d target u seen = elim (Bool-cases (ltb d o.max_depth)) [
  | inl e ↦ rw e (queued-Deeper o.max_depth d _ (ground arith))
  | inr e ↦ rw e tt
]

conclude-Deeper :
    (o : Options) (world : World) (item : Item) (u : Unpacking) (s : Progress) (t : Step)
    → All (Deeper o.max_depth item.depth) (conclude o world item u s t).0
unfolding conclude
conclude-Deeper o world item u s (run, none) =
    enqueue-Deeper o world item.depth item.output_dir u s.seen
conclude-Deeper o world item u s (run, some e) = tt

take_archive-Deeper :
    (o : Options) (world : World) (p : PathParts) (d : ℕ) (u : Unpacking) (s : Progress)
    → (kind : Option String) → All (Deeper o.max_depth d) (take_archive o world p d u s kind).0
unfolding take_archive new_item
take_archive-Deeper o world p d u s none = tt
take_archive-Deeper o world p d u s (some kind) =
    conclude-Deeper o world (new_item o world p d kind u) u _ _

pass-Deeper :
    (o : Options) (world : World) (p : PathParts) (d : ℕ) (s : Progress)
    → All (Deeper o.max_depth d) (pass o world p d s).0
unfolding pass
pass-Deeper o world p d s = elim (Bool-cases (contains (world.resolve p) s.seen)) [
  | inl e ↦ rw e tt
  | inr e ↦ rw e (take_archive-Deeper o world (world.resolve p) d _ _ _)
]

Deeper-Bounded :
    (k limit d : ℕ) (es : List (PathParts × ℕ))
    → k ≤ d
    → All (Deeper limit d) es
    → All (Bounded (suc k) limit) es
Deeper-Bounded k limit d es h a =
    All-map (Deeper limit d) (Bounded (suc k) limit) es (λ e f. (omega arith, omega arith)) a

module _ (o : Options) (world : World) where
  -- With some fuel and with any more, the queue is worked off with the same outcome.
  abbrev Halts : List (PathParts × ℕ) → Progress → Type 0
  Halts q s = (fuel : ℕ) × (t : Progress) × ((n : ℕ) → fuel ≤ n → drain o world n q s ≡ some t)

  drain_step :
      (p : PathParts) (d : ℕ) (qs : List (PathParts × ℕ)) (s t : Progress) (fuel : ℕ)
      → ((n : ℕ)
          → fuel ≤ n
          → drain o world n (qs ++ (pass o world p d s).0) (pass o world p d s).1 ≡ some t)
      → (n : ℕ) → suc fuel ≤ n
      → drain o world n ((p, d) ∷ qs) s ≡ some t
  unfolding drain
  drain_step p d qs s t fuel e zero h = absurd (omega arith)
  drain_step p d qs s t fuel e (suc n) h = e n (omega arith)

  Halts-step :
      (p : PathParts) (d : ℕ) (qs : List (PathParts × ℕ)) (s : Progress)
      → Halts (qs ++ (pass o world p d s).0) (pass o world p d s).1
      → Halts ((p, d) ∷ qs) s
  Halts-step p d qs s (fuel, t, e) = (suc fuel, t, drain_step p d qs s t fuel e)

  Halts-empty : (s : Progress) → Halts [] s
  unfolding drain
  Halts-empty s = (0, s, λ n h. refl)

  -- `ps` stands before `qs`, whose entries are deeper than the level `k`; `left` levels are left.
  halts :
      (left k : ℕ)
      → k + left ≡ suc o.max_depth
      → (ps qs : List (PathParts × ℕ)) → All (Bounded k o.max_depth) ps
      → All (Bounded (suc k) o.max_depth) qs
      → (s : Progress) → Halts (ps ++ qs) s
  halts zero k e [] [] a b s = Halts-empty s
  halts zero k e [] (q ∷ qs) a b s = absurd (omega (arith, b.0.0, b.0.1))
  halts zero k e (p ∷ ps) qs a b s = absurd (omega (arith, a.0.0, a.0.1))
  halts (suc left) k e [] qs a b s =
      rw⁻¹ (append-nil qs) (halts left (suc k) (omega arith) qs [] b tt s)
  halts (suc left) k e (p ∷ ps) qs a b s =
      let more = (pass o world p.0 p.1 s).0 in
      let deep = Deeper-Bounded k o.max_depth p.1 more a.0.0 (pass-Deeper o world p.0 p.1 s) in
      Halts-step p.0 p.1 (ps ++ qs) s (
        rw (append_assoc ps qs more) (
          halts (suc left) k e ps (qs ++ more) a.1 (All-append _ qs more b deep)
            (pass o world p.0 p.1 s).1))

  pub first_queue-Bounded : (ps : List PathParts) → All (Bounded 0 o.max_depth) (first_queue ps)
  first_queue-Bounded [] = tt
  first_queue-Bounded (p ∷ ps) = ((omega arith, omega arith), first_queue-Bounded ps)

  -- What every pass over an entry of an allowed depth keeps holds when the queue is empty.
  pub drain-keeps {κ} :
      (P : Progress → Type κ)
      → ((p : PathParts) (d : ℕ) (s : Progress) → d ≤ o.max_depth → P s → P (pass o world p d s).1)
      → (fuel : ℕ) (q : List (PathParts × ℕ)) (s t : Progress) → All (Bounded 0 o.max_depth) q
      → drain o world fuel q s ≡ some t
      → P s
      → P t
  unfolding drain
  drain-keeps P keep fuel [] s t a e h = let e' : s ≡ t = ground arith in rw (← e') h
  drain-keeps P keep zero (q ∷ qs) s t a e h = absurd (ground arith)
  drain-keeps P keep (suc fuel) (q ∷ qs) s t a e h =
      let more = (pass o world q.0 q.1 s).0 in
      drain-keeps P keep fuel (qs ++ more) (pass o world q.0 q.1 s).1 t
        (All-append _ qs more a.1 (
          All-map (Bounded 1 o.max_depth) (Bounded 0 o.max_depth) more (λ x h. (omega arith, h.1))
            (Deeper-Bounded 0 o.max_depth q.1 more (omega arith) (pass-Deeper o world q.0 q.1 s))))
        e (keep q.0 q.1 s a.0.1 h)

  pub with_manifest-some :
      (q : Option Progress) (m : Manifest)
      → with_manifest o world q ≡ some m
      → (t : Progress) × (q ≡ some t) × (manifest_of o world t ≡ m)
  with_manifest-some none m e = absurd (ground arith)
  with_manifest-some (some t) m e = (t, refl, ground arith)

  -- From some amount of fuel on, the loop gives one and the same manifest.
  unfoldable pub Terminates : Type 0
  Terminates =
      (fuel : ℕ) × (m : Manifest) × ((n : ℕ) → fuel ≤ n → extract_artifacts n o world ≡ some m)

  -- The loop over the queue of archives ends, whatever the archives hold and however the calls on
  -- them end: with enough fuel, and with any more, extract_artifacts gives one and the same
  -- manifest.
  pub extract_artifacts-terminates : Terminates
  unfolding Terminates extract_artifacts
  extract_artifacts-terminates =
      let archives = find_archives true o.source_root world.source in
      let (fuel, t, e) =
        halts (suc o.max_depth) 0 (omega arith) (first_queue archives) []
          (first_queue-Bounded archives) tt nothing_yet in
      (
        fuel,
        manifest_of o world t,
        λ n h. ap (with_manifest o world) (
            ap (λ q. drain o world n q nothing_yet) (sym (append-nil (first_queue archives)))
            ∙ e n h),
      )
