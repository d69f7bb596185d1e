-- ===== src/Subscribe/Distinct.antt =====
-- Lists with no repetition, for the two registries.
use obs_osc.Base.{List, [], ◌∷◌, ◌++◌, ◌≢◌, All, All-append}

abbrev pub Distinct {ℓ} : {A : Type ℓ} → List A → Type ℓ
Distinct [] = Unit
Distinct (x ∷ xs) = All (λ y. x ≢ y) xs × Distinct xs

pub Distinct-snoc {ℓ} :
    {A : Type ℓ} (xs : List A) (y : A)
    → Distinct xs
    → All (λ x. x ≢ y) xs
    → Distinct (xs ++ (y ∷ []))
Distinct-snoc [] y d h = (tt, tt)
Distinct-snoc (x ∷ xs) y (hx, d) (n, h) =
    (All-append (λ z. x ≢ z) xs (y ∷ []) hx (n, tt), Distinct-snoc xs y d h)
