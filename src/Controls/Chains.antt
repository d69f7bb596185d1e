-- ===== src/Controls/Chains.antt =====
-- A property of whatever a chain of tests answers.
use obs_osc.Base.{
  if◌then◌else◌, Bool, true, false, List, [], ◌∷◌, Option, none, some, Bytes, str_eq,
}
use obs_osc.Addresses.Names.{OutputInfo}
use obs_osc.Addresses.Routes.{tail, sub_action, split_two_segments}
use obs_osc.Controls.Branch.{
  Branch, done, refused, miss, ◌orelse◌, exactly, taken, under, split_case, split_else, with_sub,
  under_output, exact_output,
}

module _ {ℓ κ} {A : Type ℓ} (Q : A → Type κ) where
  abbrev pub Answers : Branch A → Type κ
  Answers (done a) = Q a
  Answers _ = Unit

  pub Answers-orelse : (b c : Branch A) → Answers b → Answers c → Answers (b orelse c)
  Answers-orelse (done a) c h i = h
  Answers-orelse refused c h i = tt
  Answers-orelse miss c h i = i

  pub Answers-exactly : (a route : Bytes) (act : A) → Q act → Answers (exactly a route act)
  Answers-exactly a route act h = go (str_eq a route)
    where
      go : (b : Bool) → Answers (if b then done act else miss)
      go true = h
      go false = tt

  pub Answers-under :
      (a prefix : Bytes) (act : Bytes → Branch A)
      → ((rest : Bytes) → Answers (act rest))
      → Answers (under a prefix act)
  unfolding under
  Answers-under a prefix act h = go (tail a prefix)
    where
      go : (o : Option Bytes) → Answers (taken o act)
      go none = tt
      go (some rest) = h rest

  pub Answers-under_done :
      (a prefix : Bytes) (act : Bytes → A)
      → ((rest : Bytes) → Q (act rest))
      → Answers (under a prefix (λ rest. done (act rest)))
  Answers-under_done a prefix act h = Answers-under a prefix (λ rest. done (act rest)) h

  pub Answers-under_output :
      (a : Bytes) (outs : List OutputInfo) (act : OutputInfo → Bytes → A)
      → ((out : OutputInfo) (sub : Bytes) → Q (act out sub))
      → Answers (under_output a outs act)
  unfolding under_output
  Answers-under_output a [] act h = tt
  Answers-under_output a (out ∷ outs) act h =
      Answers-orelse (with_sub (sub_action a out.base) (act out)) (under_output a outs act)
        (go (sub_action a out.base)) (Answers-under_output a outs act h)
    where
      go : (o : Option Bytes) → Answers (with_sub o (act out))
      go none = tt
      go (some sub) = h out sub

  pub Answers-exact_output :
      (a : Bytes) (outs : List OutputInfo) (act : OutputInfo → A)
      → ((out : OutputInfo) → Q (act out))
      → Answers (exact_output a outs act)
  unfolding exact_output
  Answers-exact_output a [] act h = tt
  Answers-exact_output a (out ∷ outs) act h =
      Answers-orelse (exactly a out.base (act out)) (exact_output a outs act)
        (Answers-exactly a out.base (act out) (h out)) (Answers-exact_output a outs act h)

  pub split_else_both :
      (rest : Bytes) (whole : A) (parts : Bytes → Bytes → A)
      → Q whole
      → ((first second : Bytes) → Q (parts first second))
      → Q (split_else rest whole parts)
  unfolding split_else
  split_else_both rest whole parts h i = go (split_two_segments rest)
    where
      go : (o : Option (Bytes × Bytes)) → Q (split_case o whole parts)
      go none = h
      go (some (first, second)) = i first second
