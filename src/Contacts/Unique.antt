-- ===== src/Contacts/Unique.antt =====
-- The contacts of a tenant have different phone numbers, and these are in E.164.
use call_agent.Prelude.{
  ℕ, ◌≡◌, ap, refl, sym, subst, arith, Bool, true, false, List, [], ◌∷◌, ◌++◌, any, all, leb,
  length, ◌≤◌, ◌&&◌, All, All-append, ◌||◌, true-false,
}
use call_agent.Prelude.Eq.{◌==◌, nat_eq, list_eq, beq_refl}
use call_agent.Store.{Store}
use call_agent.Store.Rows.{TenantContext, Contact}
use call_agent.Contacts.{stripped, is_e164, is_ascii_digit, is_contact_of, NewContact}
use call_agent.Contacts.Created.{IsCreated, run, run_keeps}

or_false : (a b : Bool) → (a || b) ≡ false → (a ≡ false) × (b ≡ false)
or_false true b h = cc
or_false false b h = (refl, h)

and_true : (a b : Bool) → (a && b) ≡ true → (a ≡ true) × (b ≡ true)
and_true true b h = (refl, h)
and_true false b h = cc

abbrev pub Differs : Contact → Contact → Type 0
Differs c d = c.tenant_id ≡ d.tenant_id → c.phone_e164 ≡ d.phone_e164 → ⊥

abbrev pub AreDistinct : List Contact → Type 0
AreDistinct [] = Unit
AreDistinct (c ∷ cs) = All (Differs c) cs × AreDistinct cs

-- A number in E.164: a plus sign and 2 to 15 digits, the first of them not zero.
pub record IsE164 (phone : List ℕ) : Type 0 where
  pub first : ℕ
  pub rest : List ℕ
  pub split : phone ≡ 43 ∷ first ∷ rest
  pub first_range : (49 ≤ first) × (first ≤ 57)
  pub are_digits : All (λ c. (48 ≤ c) × (c ≤ 57)) rest
  pub count : (1 ≤ length rest) × (length rest ≤ 14)

all_digits : (cs : List ℕ) → all is_ascii_digit cs ≡ true → All (λ c. (48 ≤ c) × (c ≤ 57)) cs
all_digits [] h = tt
all_digits (c ∷ cs) h =
    let (one, rest) = and_true (is_ascii_digit c) (all is_ascii_digit cs) h in
    (ground arith, all_digits cs rest)

is_e164_sound : (phone : List ℕ) → is_e164 is_ascii_digit phone ≡ true → IsE164 phone
is_e164_sound [] h = cc
is_e164_sound (c ∷ []) h = cc
is_e164_sound (c ∷ d ∷ ds) h =
    let (h₁, most) = and_true _ (leb (length ds) 14) h in
    let (h₂, least) = and_true _ (leb 1 (length ds)) h₁ in
    let (h₃, digits) = and_true _ (all is_ascii_digit ds) h₂ in
    let (h₄, high) = and_true _ (leb d 57) h₃ in
    let (plus, low) = and_true (c == 43) (leb 49 d) h₄ in
    record {
      first = d;
      rest = ds;
      split = rw ((nat_eq.equal_iff c 43).0 plus) refl;
      first_range = ground arith;
      are_digits = all_digits ds digits;
      count = ground arith;
    }

abbrev pub IsDirectory : List Contact → Type 0
IsDirectory cs = AreDistinct cs × All (λ c. IsE164 c.phone_e164) cs

AreDistinct-append :
    (cs : List Contact) (d : Contact)
    → AreDistinct cs
    → All (λ c. Differs c d) cs
    → AreDistinct (cs ++ d ∷ [])
AreDistinct-append [] d h k = (tt, tt)
AreDistinct-append (c ∷ cs) d (h, hs) (k, ks) =
    (All-append (Differs c) cs d h k, AreDistinct-append cs d hs ks)

free-Differs :
    (context : TenantContext) (phone : List ℕ) (d : Contact) (cs : List Contact)
    → d.tenant_id ≡ context.tenant_id
    → d.phone_e164 ≡ phone
    → any (is_contact_of context phone) cs ≡ false
    → All (λ c. Differs c d) cs
free-Differs context phone d [] t p h = tt
free-Differs context phone d (c ∷ cs) t p h =
    let (new, rest) =
      or_false (is_contact_of context phone c) (any (is_contact_of context phone) cs) h in
    (
      λ same_tenant same_phone.
          true-false
            (rw (same_tenant, same_phone, t, p, beq_refl context.tenant_id, beq_refl phone) refl)
            new,
      free-Differs context phone d cs t p rest,
    )

IsCreated-IsDirectory :
    (context : TenantContext) (n : NewContact) (s t : Store) (c : Contact)
    → IsCreated context n (stripped n.phone_e164) c s t
    → IsDirectory s.contacts
    → IsDirectory t.contacts
IsCreated-IsDirectory context n s t c k (distinct, phones) = rw k.stored (
  AreDistinct-append s.contacts c distinct (
      free-Differs context (stripped n.phone_e164) c s.contacts (ap (λ x. x.tenant_id) k.made)
        (ap (λ x. x.phone_e164) k.made) k.free),
  All-append (λ c. IsE164 c.phone_e164) s.contacts c phones
      (subst (λ c. IsE164 c.phone_e164) (sym k.made) (is_e164_sound _ k.is_phone)),
)

-- Through any history of `create_contact` by any tenants, refused calls included, no two contacts of
-- a tenant have the same number, and every number is a plus sign with 2 to 15 ASCII digits, the first
-- of them not zero, if so it was at the start. Each tenant may have the same number once.
pub run-IsDirectory :
    (is_decimal : ℕ → Bool) (s : Store) (calls : List (TenantContext × NewContact))
    → IsDirectory s.contacts
    → IsDirectory (run is_decimal s calls).contacts
run-IsDirectory is_decimal s calls h =
    run_keeps is_decimal (λ v. IsDirectory v.contacts) IsCreated-IsDirectory s calls h
