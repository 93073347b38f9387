-- ===== src/Prelude/Sets.antt =====
-- Python sets as lists without repetition: membership, insertion, and how large a subset can be.
use Prim.Native.Nat.{◌+◌, ◌≤◌}
use mathlib.Core.Path.{◌≡◌, sym, subst}
use mathlib.Core.Logic.{◌⊎◌, inl, inr}
use mathlib.Core.Bool.{Bool, true, false, ◌||◌}
use mathlib.Core.List.{List, [], ◌∷◌}
use native.Mathlib.Omega.{arith}
use call_agent.Prelude.Tests.{if◌then◌else◌, Bool-cases}
use call_agent.Prelude.Lists.{length, All}
use call_agent.Prelude.Eq.{Eq}

module _ {ℓ} {A : Type ℓ} ⦃e : Eq A⦄ where
  -- `x in xs`
  abbrev pub elem : A → List A → Bool
  elem x [] = false
  elem x (y ∷ ys) = e.equal x y || elem x ys

  infix 50 ◌∈◌
  abbrev pub ◌∈◌ : A → List A → Type 0
  x ∈ xs = elem x xs ≡ true

  -- `xs.add(x)`
  abbrev pub add : A → List A → List A
  add x xs = if elem x xs then xs else x ∷ xs

  abbrev pub IsDistinct : List A → Type 0
  IsDistinct [] = Unit
  IsDistinct (x ∷ xs) = (elem x xs ≡ false) × IsDistinct xs

  abbrev pub IsSubset : List A → List A → Type ℓ
  IsSubset xs ys = (x : A) → x ∈ xs → x ∈ ys

  pub elem-add : (x y : A) (xs : List A) → elem x (add y xs) ≡ (e.equal x y || elem x xs)
  elem-add x y xs = ground (arith, e.equal_iff x y)

  pub elem-add_self : (x : A) (xs : List A) → x ∈ add x xs
  elem-add_self x xs = ground (arith, e.equal_iff x x)

  pub add-IsSubset : (y : A) (xs : List A) → IsSubset xs (add y xs)
  add-IsSubset y xs x h = ground (arith, elem-add x y xs)

  pub add-IsDistinct : (x : A) (xs : List A) → IsDistinct xs → IsDistinct (add x xs)
  add-IsDistinct x xs h = ground arith

  -- the list without the first occurrence of `x`
  without : A → List A → List A
  without x [] = []
  without x (y ∷ ys) = if e.equal x y then ys else y ∷ without x ys

  length-without : (x : A) (ys : List A) → x ∈ ys → length (without x ys) + 1 ≡ length ys
  unfolding without
  length-without x [] h = ground arith
  length-without x (y ∷ ys) h = ground (arith, length-without x ys)

  elem-without : (x z : A) (ys : List A) → e.equal z x ≡ false → z ∈ ys → z ∈ without x ys
  unfolding without
  elem-without x z [] n h = h
  elem-without x z (y ∷ ys) n h =
      ground (arith, elem-without x z ys, e.equal_iff x y, e.equal_iff z y, e.equal_iff z x)

  rest_without :
      (x : A) (xs ys : List A)
      → IsDistinct (x ∷ xs)
      → IsSubset (x ∷ xs) ys
      → IsSubset xs (without x ys)
  rest_without x xs ys d s z h =
      elem-without x z ys (differs (Bool-cases (e.equal z x))) (s z (ground arith))
    where
      differs : ((e.equal z x ≡ true) ⊎ (e.equal z x ≡ false)) → e.equal z x ≡ false
      differs (inl p) = ground (arith, e.equal_iff z x)
      differs (inr p) = p

  -- A list without repetition is no longer than a list that holds all of it.
  pub length-le_of_IsSubset :
      (xs ys : List A) → IsDistinct xs → IsSubset xs ys → length xs ≤ length ys
  length-le_of_IsSubset [] ys d s = omega arith
  length-le_of_IsSubset (x ∷ xs) ys d s = ground (
    arith,
    length-without x ys (s x (ground (arith, e.equal_iff x x))),
    length-le_of_IsSubset xs (without x ys) d.1 (rest_without x xs ys d s),
  )

  -- a larger set is strictly longer
  pub length-lt_of_new :
      (x : A) (xs ys : List A)
      → IsDistinct xs
      → IsSubset xs ys
      → x ∈ ys
      → elem x xs ≡ false
      → length xs + 1 ≤ length ys
  length-lt_of_new x xs ys d s m n = omega (
    arith,
    length-le_of_IsSubset (x ∷ xs) ys (n, d) (λ z h. ground (arith, e.equal_iff z x, s z)),
  )

module _ {ℓ} {A : Type ℓ} ⦃e : Eq A⦄ where
  pub All-elem : (P : A → Type 0) (xs : List A) (x : A) → All P xs → x ∈ xs → P x
  All-elem P [] x h m = cc
  All-elem P (y ∷ ys) x h m = elim (Bool-cases (e.equal x y)) [
    | inl same ↦ subst P (sym ((e.equal_iff x y).0 same)) h.0
    | inr other ↦ All-elem P ys x h.1 (ground arith)
  ]

module _ {ℓ κ} {K : Type ℓ} {A : Type κ} ⦃e : Eq K⦄ where
  -- `d.get(k, frozenset())`, for a dict of sets
  abbrev pub get_set : List (K × List A) → K → List A
  get_set [] k = []
  get_set ((j, xs) ∷ rest) k = if e.equal j k then xs else get_set rest k

module _ {ℓ} {A : Type ℓ} ⦃e : Eq A⦄ where
  -- What holds of every pair in a dict of sets holds of a key and a member of its set.
  pub get_set-All :
      (P : A → A → Type 0) (d : List (A × List A)) (k x : A)
      → All (λ (p : A × List A). All (P p.0) p.1) d
      → x ∈ get_set d k
      → P k x
  get_set-All P [] k x h m = cc
  get_set-All P ((j, xs) ∷ rest) k x h m = elim (Bool-cases (e.equal j k)) [
    | inl same ↦
        subst (λ z. P z x) ((e.equal_iff j k).0 same) (All-elem (P j) xs x h.0 (ground arith))
    | inr other ↦ get_set-All P rest k x h.1 (ground arith)
  ]
