-- ===== src/Prelude/Dicts.antt =====
-- Python dicts as lists of keys and values in the order of insertion.
use mathlib.Core.Path.{◌≡◌}
use mathlib.Core.Option.{Option, none, some}
use mathlib.Core.List.{List, [], ◌∷◌}
use native.Mathlib.Omega.{arith}
use call_agent.Prelude.Tests.{if◌then◌else◌}
use call_agent.Prelude.Eq.{Eq}

module _ {ℓ κ} {K : Type ℓ} {A : Type κ} ⦃e : Eq K⦄ where
  -- `d.get(k)`
  abbrev pub lookup : K → List (K × A) → Option A
  lookup k [] = none
  lookup k ((j, a) ∷ d) = if e.equal j k then some a else lookup k d

  -- `d[k] = a`
  abbrev pub put : K → A → List (K × A) → List (K × A)
  put k a [] = (k, a) ∷ []
  put k a ((j, b) ∷ d) = let rest = put k a d in if e.equal j k then (j, a) ∷ d else (j, b) ∷ rest

  -- `d.pop(k, None)`; a key stands at most once, and all of its pairs go.
  abbrev pub pop_key : K → List (K × A) → List (K × A)
  pop_key k [] = []
  pop_key k ((j, b) ∷ d) = let rest = pop_key k d in if e.equal j k then rest else (j, b) ∷ rest

  pub lookup-put :
      (k j : K) (a : A) (d : List (K × A))
      → lookup k (put j a d) ≡ (if e.equal j k then some a else lookup k d)
  lookup-put k j a [] = ground (arith, e.equal_iff j k)
  lookup-put k j a ((i, b) ∷ d) =
      ground (arith, lookup-put k j a d, e.equal_iff j k, e.equal_iff i j, e.equal_iff i k)

  pub lookup-pop_key :
      (k j : K) (d : List (K × A))
      → lookup k (pop_key j d) ≡ (if e.equal j k then none else lookup k d)
  lookup-pop_key k j [] = ground arith
  lookup-pop_key k j ((i, b) ∷ d) =
      ground (arith, lookup-pop_key k j d, e.equal_iff j k, e.equal_iff i j, e.equal_iff i k)
