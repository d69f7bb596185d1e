-- ===== src/Util/Lookup.antt =====
-- The lookup by name in `osc_visit_sources` beside the enumeration of every source.
use obs_osc.Base.{
  arith, Bool, true, false, ◌&&◌, List, [], ◌∷◌, ◌++◌, All, Option, none, some, if◌then◌else◌,
  Bytes, ◌≡◌, ◌≢◌, refl, sym, ap, ◌∙◌, ◌⊎◌, inl, inr, Bool-cases, str_eq, str_eq_iff,
}
use obs_osc.Util.Glob.{osc_has_wildcard}
use obs_osc.Util.Correct.{osc_glob_match_exact}
use obs_osc.Util.Visit.{
  input_kind, osc_is_input, type_ok, visit_each, visit_source, osc_visit_sources,
}
use obs_osc.Subscribe.Fanout.{glob}
use obs_osc.Obs.Actions.{Handle, Action}
use obs_osc.Obs.Readings.{Env, Ui, reads, SourceType, input, type_eq}

glob_exact :
    (pattern name : Bytes)
    → osc_has_wildcard pattern ≡ false
    → glob pattern name ≡ str_eq pattern name
unfolding glob
glob_exact pattern name h = rw (osc_glob_match_exact pattern name h, glob) refl

-- None of the sources is an input whose name is the pattern.
abbrev pub Others : (Handle → Bytes) → (Handle → SourceType) → Bytes → List Handle → Type 0
Others name type pattern = All (λ source. (name source ≢ pattern) ⊎ (type source ≢ input))

-- What libobs documents: `obs_enum_sources` lists every input, and `obs_get_source_by_name` finds a
-- source of any type by its name, which is its alone. So a name that finds nothing is no listed
-- input's; an input that is found stands in the list, as the only input of its name; and where a scene
-- or a transition is found, no listed input has that name.
abbrev pub IsListed :
    Option Handle → (Handle → Bytes) → (Handle → SourceType) → Bytes → List Handle → Type 0
IsListed none name type pattern sources = Others name type pattern sources
IsListed (some source) name type pattern sources =
    (name source ≡ pattern)
    × (((type source ≡ input)
          × ((before : List Handle) × (after : List Handle) × (sources ≡ before ++ (source ∷ after))
              × Others name type pattern before
              × Others name type pattern after))
        ⊎ ((type source ≢ input) × Others name type pattern sources))

type_eq-false : (t : SourceType) → t ≢ input → type_eq t input ≡ false
type_eq-false t h = ground arith

if_and_false {ℓ} : {A : Type ℓ} (b c : Bool) (x y : A) → c ≡ false → (if b && c then x else y) ≡ y
if_and_false true c x y h = rw h refl
if_and_false false c x y h = refl

module _ (env : Env) (pattern : Bytes) (visit : Handle → Ui → Ui × Bool) (name : Handle → Bytes)
    (type : Handle → SourceType)
    (named : (calls : List Action) (source : Handle)
      → (env.obs calls).source_name source ≡ name source)
    (typed : (calls : List Action) (source : Handle)
      → (env.obs calls).source_type source ≡ type source)
    (exact : osc_has_wildcard pattern ≡ false) where
  matches :
      (source : Handle) (u : Ui)
      → glob pattern ((reads env u).source_name source) ≡ str_eq pattern (name source)
  matches source u =
      glob_exact pattern ((reads env u).source_name source) exact
      ∙ ap (str_eq pattern) (named u.calls source)

  other_false : (source : Handle) → name source ≢ pattern → str_eq pattern (name source) ≡ false
  other_false source other = elim (Bool-cases (str_eq pattern (name source))) [
    | inl e ↦ absurd (other (sym ((str_eq_iff pattern (name source)).0 e)))
    | inr e ↦ e
  ]

  type_ok-type_eq :
      (source : Handle) (u : Ui)
      → type_ok (reads env u) input_kind source ≡ type_eq (type source) input
  unfolding type_ok osc_is_input
  type_ok-type_eq source u = ap (λ t. type_eq t input) (typed u.calls source)

  passed :
      (source : Handle) (u : Ui)
      → (name source ≢ pattern) ⊎ (type source ≢ input)
      → visit_source (reads env) pattern input_kind visit source u ≡ (u, true)
  unfolding visit_source
  passed source u (inl other) =
      if_and_false (type_ok (reads env u) input_kind source) _ _ _
        (matches source u ∙ other_false source other)
  passed source u (inr apart) =
      rw (type_ok-type_eq source u, type_eq-false (type source) apart) refl

  all_passed :
      (sources : List Handle) (u : Ui)
      → Others name type pattern sources
      → visit_each (visit_source (reads env) pattern input_kind visit) sources u ≡ u
  unfolding visit_each
  all_passed [] u others = refl
  all_passed (source ∷ sources) u (other, others) =
      rw (passed source u other) (all_passed sources u others)

  -- The one source of that name.
  found_alone :
      (source : Handle) (after : List Handle) (u : Ui)
      → name source ≡ pattern
      → Others name type pattern after
      → visit_each (visit_source (reads env) pattern input_kind visit) (source ∷ after) u
        ≡ (if type_ok (reads env u) input_kind source then (visit source u).0 else u)
  unfolding visit_each visit_source
  found_alone source after u same others =
      let e = matches source u ∙ (str_eq_iff pattern (name source)).1 (sym same) in
      elim (Bool-cases (type_ok (reads env u) input_kind source)) [
        | inl fits ↦ rw (fits, e) (stops (Bool-cases (visit source u).1))
        | inr bad ↦ rw bad (all_passed after u others)
      ]
    where
      stops :
          ((visit source u).1 ≡ true) ⊎ ((visit source u).1 ≡ false)
          → (if (visit source u).1
              then visit_each
                  (visit_source (reads env) pattern input_kind visit)
                  after
                  (visit source u).0
              else (visit source u).0)
            ≡ (visit source u).0
      stops (inl more) = rw more (all_passed after (visit source u).0 others)
      stops (inr done) = rw done refl

  skip_before :
      (before rest : List Handle) (u : Ui)
      → Others name type pattern before
      → visit_each (visit_source (reads env) pattern input_kind visit) (before ++ rest) u
        ≡ visit_each (visit_source (reads env) pattern input_kind visit) rest u
  unfolding visit_each
  skip_before [] rest u others = refl
  skip_before (source ∷ before) rest u (other, others) =
      rw (passed source u other) (skip_before before rest u others)

  -- A pattern with no wildcard, and visits of inputs, as all are but those to the filters of sources of
  -- any type: visiting the source that libobs finds by that name does what matching the name of every
  -- listed source would. This is where libobs lists its inputs and finds sources by their names, and
  -- where no call that the visitor makes renames a source.
  pub osc_visit_sources-visit_each :
      (u : Ui)
      → IsListed ((reads env u).source_by_name pattern) name type pattern (reads env u).sources
      → osc_visit_sources (reads env) pattern input_kind visit u
        ≡ visit_each (visit_source (reads env) pattern input_kind visit) (reads env u).sources u
  unfolding osc_visit_sources
  osc_visit_sources-visit_each u listed =
      rw exact (go ((reads env u).source_by_name pattern) listed)
    where
      go :
          (found : Option Handle)
          → IsListed found name type pattern (reads env u).sources
          → elim found as (λ _. Ui) [
            | none ↦ u
            | some source ↦
                if type_ok (reads env u) input_kind source then (visit source u).0 else u
          ]
            ≡ visit_each (visit_source (reads env) pattern input_kind visit) (reads env u).sources u
      go none others = sym (all_passed (reads env u).sources u others)
      go (some source) (same, inl (fits, (before, after, split, others, rest))) = sym (
          ap (λ sources. visit_each (visit_source (reads env) pattern input_kind visit) sources u)
            split
          ∙ (skip_before before (source ∷ after) u others ∙ found_alone source after u same rest))
      go (some source) (same, inr (apart, others)) =
          rw (type_ok-type_eq source u, type_eq-false (type source) apart)
            (sym (all_passed (reads env u).sources u others))
