-- ===== src/PipelineState/RunKey.antt =====
-- Run keys tell run configurations apart, as far as the digest does.
use Prim.Native.Char.{nul}
use Prim.Native.String.{◌++◌ as str_append}
use mathlib.Core.Path.{ap₂}
use text.Mathlib.TextLemmas.{nil-append, cons-append, cons-eq-cons}
use el_sca_ansamble.Prelude.{
  String, Bool, false, ◌≡◌, ◌≢◌, refl, sym, ap, ◌∙◌, inl, inr, Bool-cases, some,
}
use el_sca_ansamble.Prelude.Keys.{string_eq, contains}
use el_sca_ansamble.PipelineState.State.{
  State, Disk, Platform, Reading, Run, compute_run_key, blob, separated, or_text, begin_run,
}
use el_sca_ansamble.PipelineState.Stages.{completed_stages}
use el_sca_ansamble.PipelineState.Resume.{begin_run-completed}

-- The separator character does not occur.
abbrev pub HasNoNul : String → Type 0
HasNoNul String.[] = Unit
HasNoNul (String.◌∷◌ c s) = (c ≢ nul) × HasNoNul s

append-nul_inj :
    (a c b d : String)
    → HasNoNul a
    → HasNoNul c
    → str_append a (String.◌∷◌ nul b) ≡ str_append c (String.◌∷◌ nul d)
    → (a ≡ c) × (b ≡ d)
append-nul_inj String.[] String.[] b d h k e =
    (refl, (cons-eq-cons.0 (sym (nil-append _) ∙ e ∙ nil-append _)).1)
append-nul_inj String.[] (String.◌∷◌ y c) b d h k e =
    absurd (k.0 (sym (cons-eq-cons.0 (sym (nil-append _) ∙ e ∙ cons-append y c _)).0))
append-nul_inj (String.◌∷◌ x a) String.[] b d h k e =
    absurd (h.0 (cons-eq-cons.0 (sym (cons-append x a _) ∙ e ∙ nil-append _)).0)
append-nul_inj (String.◌∷◌ x a) (String.◌∷◌ y c) b d h k e =
    let heads = cons-eq-cons.0 (sym (cons-append x a _) ∙ e ∙ cons-append y c _) in
    let rest = append-nul_inj a c b d h.1 k.1 heads.1 in (ap₂ String.◌∷◌ heads.0 rest.0, rest.1)

module _ (p : Platform) where
  open p use {Time, Duration, normcase, digest}

  -- Two runs that scan the same thing in the same way.
  pub record SameRun (a b : Run) : Type 0 where
    pub target : normcase a.target ≡ normcase b.target
    pub tool : or_text a.tool "all" ≡ or_text b.tool "all"
    pub extra : a.extra ≡ b.extra

  pub record IsPlain (run : Run) : Type 0 where
    pub target : HasNoNul (normcase run.target)
    pub tool : HasNoNul (or_text run.tool "all")

  -- If the digest does not confuse the two texts that it is given, and no target path or tool name
  -- holds the separator, then equal run keys mean the same target, tool selection and extra.
  pub compute_run_key-inj :
      (a b : Run)
      → (digest (blob p a) ≡ digest (blob p b) → blob p a ≡ blob p b)
      → IsPlain a
      → IsPlain b
      → compute_run_key p a ≡ compute_run_key p b
      → SameRun a b
  unfolding compute_run_key blob
  compute_run_key-inj a b faithful plain_a plain_b e =
      let outer =
        append-nul_inj (normcase a.target) (normcase b.target)
          (separated p (or_text a.tool "all") a.extra) (separated p (or_text b.tool "all") b.extra)
          plain_a.target plain_b.target (faithful e) in
      let inner =
        append-nul_inj (or_text a.tool "all") (or_text b.tool "all") a.extra b.extra plain_a.tool
          plain_b.tool outer.1 in
      record { target = outer.0; tool = inner.0; extra = inner.1 }

  -- If the digest does not confuse the two texts that it is given, and no target path or tool name
  -- holds the separator, then a run that begins over the state of a run with another target, tool
  -- selection or extra has no completed stage, whether or not a resume was asked for.
  pub begin_run-other :
      (a b : Run) (case_id : String) (resume : Bool) (now : Reading Time)
      (disk : Disk Time Duration) {prev : State Time Duration}
      → disk.file ≡ some prev
      → prev.run_key ≡ compute_run_key p b
      → (digest (blob p b) ≡ digest (blob p a) → blob p b ≡ blob p a)
      → IsPlain a
      → IsPlain b
      → ¬ SameRun b a
      → (s : String)
      → contains s (completed_stages p (some (begin_run p a case_id resume now disk).0)) ≡ false
  begin_run-other a b case_id resume now disk {prev} file key faithful plain_a plain_b other s =
      elim (Bool-cases
        (contains s (completed_stages p (some (begin_run p a case_id resume now disk).0)))) [
          | inl skipped ↦
              let (q, found, asked, same, version, kept) =
                begin_run-completed p a case_id now disk resume s skipped in
              let e : prev ≡ q = cc in
              absurd (
                other (
                  compute_run_key-inj b a faithful plain_b plain_a
                    (sym key ∙ ap (λ (q : State Time Duration). q.run_key) e ∙ same)))
          | inr e ↦ e
        ]
