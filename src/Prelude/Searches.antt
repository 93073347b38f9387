-- ===== src/Prelude/Searches.antt =====
-- Lists that grow at their end: what holds of all members, and searches.
use mathlib.Core.Path.{◌≡◌, refl}
use mathlib.Core.Bool.{Bool, true, false}
use mathlib.Core.Option.{none, some}
use mathlib.Core.List.{List, [], ◌∷◌, ◌++◌}
use native.Mathlib.Omega.{arith}
use call_agent.Prelude.Lists.{any, find_first, All}

pub find_first-append :
    {A : Type 0} (p : A → Bool) (xs ys : List A) (a : A)
    → find_first p xs ≡ some a
    → find_first p (xs ++ ys) ≡ some a
find_first-append p [] ys a h = cc
find_first-append p (x ∷ xs) ys a h = ground (arith, find_first-append p xs ys a)

pub find_first-append_none :
    {A : Type 0} (p : A → Bool) (xs : List A) (a : A)
    → find_first p xs ≡ none
    → p a ≡ true
    → find_first p (xs ++ a ∷ []) ≡ some a
find_first-append_none p [] a h k = ground arith
find_first-append_none p (x ∷ xs) a h k = ground (arith, find_first-append_none p xs a)

pub find_first-eq_none :
    {A : Type 0} (p : A → Bool) (xs : List A) → any p xs ≡ false → find_first p xs ≡ none
find_first-eq_none p [] h = refl
find_first-eq_none p (x ∷ xs) h = ground (arith, find_first-eq_none p xs)

pub All-append :
    {A : Type 0} (P : A → Type 0) (xs : List A) (a : A) → All P xs → P a → All P (xs ++ a ∷ [])
All-append P [] a h p = (p, tt)
All-append P (x ∷ xs) a h p = (h.0, All-append P xs a h.1 p)
