-- ===== src/Controls/Branch.antt =====
-- A chain of tests on an address, each of which may answer and return.
use obs_osc.Base.{List, [], ◌∷◌, Option, none, some, if◌then◌else◌, Bytes, str_eq}
use obs_osc.Addresses.Routes.{tail, sub_action, split_two_segments}
use obs_osc.Addresses.Names.{OutputInfo}

-- `done` acts and returns true, `refused` returns false at once, `miss` goes on to the next test.
pub data Branch {ℓ} (A : Type ℓ) : Type ℓ where
  done : A → Branch A
  refused : Branch A
  miss : Branch A

infixr 15 ◌orelse◌
abbrev pub ◌orelse◌ {ℓ} : {A : Type ℓ} → Branch A → Branch A → Branch A
done a orelse b = done a
refused orelse b = refused
miss orelse b = b

module _ {ℓ} {A : Type ℓ} where
  -- `if (a == route)`
  abbrev pub exactly : Bytes → Bytes → A → Branch A
  exactly a route act = if str_eq a route then done act else miss

  abbrev pub taken : Option Bytes → (Bytes → Branch A) → Branch A
  taken none act = miss
  taken (some rest) act = act rest

  -- `if (const char *rest = osc_addr::tail(a, prefix))`
  unfoldable pub under : Bytes → Bytes → (Bytes → Branch A) → Branch A
  unfolding tail
  under a prefix act = taken (tail a prefix) act

  -- Both outcomes of `split_two_segments`.
  abbrev pub split_case : Option (Bytes × Bytes) → A → (Bytes → Bytes → A) → A
  split_case none whole parts = whole
  split_case (some (first, second)) whole parts = parts first second

  unfoldable pub split_else : Bytes → A → (Bytes → Bytes → A) → A
  unfolding split_two_segments
  split_else rest whole parts = split_case (split_two_segments rest) whole parts

  abbrev pub with_sub : Option Bytes → (Bytes → A) → Branch A
  with_sub none act = miss
  with_sub (some sub) act = done (act sub)

  -- The loop over the outputs with `sub_action`.
  unfoldable pub under_output : Bytes → List OutputInfo → (OutputInfo → Bytes → A) → Branch A
  unfolding sub_action
  under_output a [] act = miss
  under_output a (out ∷ outs) act =
      with_sub (sub_action a out.base) (act out) orelse under_output a outs act

  -- The loop over the outputs with `==`.
  unfoldable pub exact_output : Bytes → List OutputInfo → (OutputInfo → A) → Branch A
  exact_output a [] act = miss
  exact_output a (out ∷ outs) act = exactly a out.base (act out) orelse exact_output a outs act
