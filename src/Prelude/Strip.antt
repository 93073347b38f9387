-- ===== src/Prelude/Strip.antt =====
-- Python's `strip` and `partition` on texts, which are lists of code points here.
use mathlib.Core.Path.{◌≡◌, refl, sym, ap, ◌∙◌}
use mathlib.Core.Bool.{Bool, true, false, ◌&&◌, ◌||◌}
use mathlib.Core.List.{List, [], ◌∷◌, ◌++◌}
use Prim.Native.Nat.{ℕ}
use native.Mathlib.Omega.{arith}
use call_agent.Prelude.Tests.{nat_beq, leb, if◌then◌else◌}
use call_agent.Prelude.Lists.{any}

-- `str.isspace` of one character
unfoldable pub is_space : ℕ → Bool
is_space c =
    (leb 9 c && leb c 13)
    || (leb 28 c && leb c 32)
    || any (nat_beq c) (133 ∷ 160 ∷ 5760 ∷ 8232 ∷ 8233 ∷ 8239 ∷ 8287 ∷ 12288 ∷ [])
    || (leb 8192 c && leb c 8202)

abbrev pub lstrip_by : (ℕ → Bool) → List ℕ → List ℕ
lstrip_by p [] = []
lstrip_by p (c ∷ cs) = if p c then lstrip_by p cs else c ∷ cs

abbrev pub rstripped : (ℕ → Bool) → ℕ → List ℕ → List ℕ
rstripped p c [] = if p c then [] else c ∷ []
rstripped p c (d ∷ ds) = c ∷ d ∷ ds

abbrev pub rstrip_by : (ℕ → Bool) → List ℕ → List ℕ
rstrip_by p [] = []
rstrip_by p (c ∷ cs) = rstripped p c (rstrip_by p cs)

-- `s.strip()`
abbrev pub strip : List ℕ → List ℕ
strip s = rstrip_by is_space (lstrip_by is_space s)

abbrev pub IsStripped : List ℕ → Type 0
IsStripped s = (lstrip_by is_space s ≡ s) × (rstrip_by is_space s ≡ s)

-- `s.partition(x)` for one character: what is before it, whether it was found, and what is after it.
abbrev pub partition : ℕ → List ℕ → List ℕ × Bool × List ℕ
partition x [] = ([], false, [])
partition x (c ∷ cs) =
    let (before, found, after) = partition x cs in
    if nat_beq c x then ([], true, cs) else (c ∷ before, found, after)

-- Of a text in which `x` does not occur.
pub partition-append :
    (x : ℕ) (name value : List ℕ)
    → any (nat_beq x) name ≡ false
    → partition x (name ++ x ∷ value) ≡ (name, true, value)
partition-append x [] value h = ground arith
partition-append x (c ∷ cs) value h = ground (arith, partition-append x cs value)

-- A last character that is stripped.
pub rstrip_by-append :
    (p : ℕ → Bool) (c : ℕ) (s : List ℕ) → p c ≡ true → rstrip_by p (s ++ c ∷ []) ≡ rstrip_by p s
rstrip_by-append p c [] h = ground arith
rstrip_by-append p c (d ∷ ds) h = ap (rstripped p d) (rstrip_by-append p c ds h)

rstripped_ne : (p : ℕ → Bool) (c d : ℕ) (s t : List ℕ) → s ≡ d ∷ t → rstripped p c s ≡ c ∷ s
rstripped_ne p c d [] t e = cc
rstripped_ne p c d (x ∷ xs) t e = refl

-- In front of a text that ends in a character that stays.
pub rstrip_by-append_left :
    (p : ℕ → Bool) (s : List ℕ) (c : ℕ) (t : List ℕ)
    → rstrip_by p (c ∷ t) ≡ c ∷ t
    → rstrip_by p (s ++ c ∷ t) ≡ s ++ c ∷ t
rstrip_by-append_left p [] c t h = h
rstrip_by-append_left p (d ∷ ds) c t h = rw (rstrip_by-append_left p ds c t h) (kept ds)
  where
    kept : (s : List ℕ) → rstripped p d (s ++ c ∷ t) ≡ d ∷ (s ++ c ∷ t)
    kept [] = refl
    kept (x ∷ xs) = refl

-- A text that ends in no character of one kind ends in none of a narrower kind.
pub rstrip_by_mono :
    (p q : ℕ → Bool) (s : List ℕ)
    → ((c : ℕ) → p c ≡ true → q c ≡ true)
    → rstrip_by q s ≡ s
    → rstrip_by p s ≡ s
rstrip_by_mono p q [] narrower h = refl
rstrip_by_mono p q (c ∷ cs) narrower h =
    go (rstrip_by q cs) refl h λ k. rstrip_by_mono p q cs narrower k
  where
    go :
        (r : List ℕ)
        → rstrip_by q cs ≡ r
        → rstripped q c r ≡ c ∷ cs
        → (rstrip_by q cs ≡ cs → rstrip_by p cs ≡ cs)
        → rstripped p c (rstrip_by p cs) ≡ c ∷ cs
    go [] e k ih = ground (arith, narrower c)
    go (d ∷ ds) e k ih =
        let t : d ∷ ds ≡ cs = cc in rw (ih (e ∙ t)) (rstripped_ne p c d cs ds (sym t))
