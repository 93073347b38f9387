-- ===== src/Store/Proc.antt =====
-- Code that runs several transactions: what one has committed stays when a later one raises.
use call_agent.Prelude.{◌≡◌, refl}
use call_agent.Prelude.Results.{Result, ok, err}
use call_agent.Store.{Store}
use call_agent.Store.Errors.{Error}
use call_agent.Store.Tx.{Tx}

abbrev pub Proc : Type 0 → Type 0
Proc A = Store → Result Error A × Store

abbrev pub settle : {A : Type 0} → Store → Result Error (A × Store) → Result Error A × Store
settle s (ok (a, s')) = (ok a, s')
settle s (err x) = (err x, s)

-- Run one transaction.
abbrev pub run : {A : Type 0} → Tx A → Proc A
run t s = settle s (t s)

-- `try: m except ...: handler`, and what follows a return.
abbrev pub attempt :
    {A B : Type 0} → Result Error A × Store → (Result Error A → Proc B) → Result Error B × Store
attempt (r, s) f = f r s

-- If it returned, the value has the property.
abbrev pub Returns : {A : Type 0} → (A → Type 0) → Result Error A × Store → Type 0
Returns P (ok a, s) = P a
Returns P (err x, s) = Unit

-- A raise outside of any transaction.
abbrev pub fail : {A : Type 0} → Error → Proc A
fail x s = (err x, s)

-- `a = m(...)` and the rest, which runs only if `m` returned.
abbrev pub then_with :
    {A B : Type 0} → Result Error A × Store → (A → Proc B) → Result Error B × Store
then_with (ok a, s) f = f a s
then_with (err x, s) f = (err x, s)

abbrev pub finish_with : {A : Type 0} → A → Proc A
finish_with a s = (ok a, s)

pub then_with-cong :
    {A B : Type 0} (r : Result Error A × Store) (f g : A → Proc B)
    → ((a : A) (s : Store) → f a s ≡ g a s)
    → then_with r f ≡ then_with r g
then_with-cong (ok a, s) f g h = h a s
then_with-cong (err x, s) f g h = refl

-- What every return of the rest has, the whole has.
pub then_with-elim :
    {A B : Type 0} (P : B → Type 0) (r : Result Error A × Store) (f : A → Proc B)
    → ((a : A) (s : Store) → Returns P (f a s))
    → Returns P (then_with r f)
then_with-elim P (ok a, s) f h = h a s
then_with-elim P (err x, s) f h = tt
