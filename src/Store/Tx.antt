-- ===== src/Store/Tx.antt =====
-- One transaction, `with tenant_scope(context) as session:`. It returns a value and the new store,
-- or it raises, and then the session is rolled back: there is no new store.
use call_agent.Prelude.{ℕ, ◌≡◌, refl, ap, Bool, true, false, suc, arith}
use call_agent.Prelude.Results.{Result, ok, err, ok_injective}
use call_agent.Store.{Store}
use call_agent.Store.Errors.{Error}

abbrev pub Tx : Type 0 → Type 0
Tx A = Store → Result Error (A × Store)

abbrev pub continue :
    {A B : Type 0} → Result Error (A × Store) → (A → Tx B) → Result Error (B × Store)
continue (ok (a, s)) f = f a s
continue (err x) f = err x

infixl 5 ◌>>=◌ ◌>>◌
abbrev pub ◌>>=◌ : {A B : Type 0} → Tx A → (A → Tx B) → Tx B
◌>>=◌ m f s = continue (m s) f

abbrev pub ◌>>◌ : {B : Type 0} → Tx (Unit {0}) → Tx B → Tx B
m >> n = m >>= λ _. n

abbrev pub pure : {A : Type 0} → A → Tx A
pure a s = ok (a, s)

abbrev pub raise : {A : Type 0} → Error → Tx A
raise x s = err x

abbrev pub raise_if : Bool → Error → Tx (Unit {0})
raise_if true x s = err x
raise_if false x s = ok (tt, s)

abbrev pub gets : {A : Type 0} → (Store → A) → Tx A
gets f s = ok (f s, s)

abbrev pub modify : (Store → Store) → Tx (Unit {0})
modify f s = ok (tt, f s)

-- `uuid4()`
abbrev pub new_uuid : Tx ℕ
new_uuid s = ok (s.supply, record s { supply = suc s.supply })

-- The store after a transaction, which a raise leaves as it was.
abbrev pub store_after : {A : Type 0} → Store → Result Error (A × Store) → Store
store_after s (ok (a, t)) = t
store_after s (err x) = s

-- A transaction that committed: each of its steps did.
pub >>=-eq-ok :
    {A B : Type 0} (m : Tx A) (f : A → Tx B) (s : Store) {b : B} {t : Store}
    → (m >>= f) s ≡ ok (b, t)
    → (a : A) × (s' : Store) × (m s ≡ ok (a, s')) × (f a s' ≡ ok (b, t))
>>=-eq-ok {A} {B} m f s {b} {t} h = split (m s) refl h
  where
    split :
        (r : Result Error (A × Store))
        → m s ≡ r
        → continue r f ≡ ok (b, t)
        → (a : A) × (s' : Store) × (m s ≡ ok (a, s')) × (f a s' ≡ ok (b, t))
    split (ok (a, s')) e p = (a, s', e, p)
    split (err x) e p = cc

pub raise_if-eq-ok :
    (test : Bool) (x : Error) (s t : Store) (u : Unit {0})
    → raise_if test x s ≡ ok (u, t)
    → (test ≡ false) × (t ≡ s)
raise_if-eq-ok true x s t u h = cc
raise_if-eq-ok false x s t u h = ground arith

-- A guard that let the rest run.
pub raise_if-bind :
    {B : Type 0} (test : Bool) (x : Error) (m : Tx B) (s t : Store) (b : B)
    → (raise_if test x >> m) s ≡ ok (b, t)
    → (test ≡ false) × (m s ≡ ok (b, t))
raise_if-bind true x m s t b h = cc
raise_if-bind false x m s t b h = (refl, h)

pub committed :
    {A : Type 0} {a b : A} {s t : Store}
    → ◌≡◌ {A = Result Error (A × Store)} (ok (a, s)) (ok (b, t))
    → (a ≡ b) × (s ≡ t)
committed h = let same = ok_injective h in (ap (λ x. x.0) same, ap (λ x. x.1) same)
