-- ===== src/Common/Picks.antt =====
-- One element of a list, wherever it stands.
use mathlib.Core.Path.{◌≡◌}
use mathlib.Core.List.{List, [], ◌∷◌}

-- One element of a list, and the others.
pub data Pick {A : Type 0} : A → List A → List A → Type 0 where
  first : (x : A) (xs : List A) → Pick x (x ∷ xs) xs
  further : (x y : A) (xs rest : List A) → Pick x xs rest → Pick x (y ∷ xs) (y ∷ rest)

pub Pick-none : {A : Type 0} {x : A} {xs rest : List A} → Pick x xs rest → xs ≡ [] → ⊥
Pick-none (first x xs) e = cc
Pick-none (further x y xs rest p) e = cc

pub Pick-only :
    {A : Type 0} {x y : A} {xs rest : List A} → Pick x xs rest → xs ≡ y ∷ [] → (x ≡ y) × (rest ≡ [])
Pick-only (first x xs) e = (cc, cc)
Pick-only (further x y xs rest p) e = absurd (Pick-none p (cc))
