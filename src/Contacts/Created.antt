-- ===== src/Contacts/Created.antt =====
-- What a committed `create_contact` has checked and written, and histories of such calls.
use call_agent.Prelude.{
  ℕ, ◌≡◌, refl, sym, Bool, true, false, none, some, List, [], ◌∷◌, ◌++◌, not, any, if◌then◌else◌,
}
use call_agent.Prelude.Eq.{nat_eq, list_eq}
use call_agent.Prelude.Results.{Result, ok, err}
use call_agent.Store.{Store}
use call_agent.Store.Rows.{TenantContext, Contact}
use call_agent.Store.Errors.{Error, integrity_error, contact_phone_conflict}
use call_agent.Store.Tx.{store_after, raise_if, gets, raise_if-bind, committed, ◌>>=◌}
use call_agent.Contacts.{
  stripped, is_e164, is_ascii_digit, is_contact_of, NewContact, new_contact, add_contact,
  insert_contact, created, normalize_phone_e164, create_contact,
}

pub record IsCreated (context : TenantContext) (n : NewContact) (phone : List ℕ) (c : Contact)
    (s t : Store) : Type 0 where
  pub is_phone : is_e164 is_ascii_digit phone ≡ true
  pub free : any (is_contact_of context phone) s.contacts ≡ false
  pub made : c ≡ new_contact context n s.supply phone
  pub stored : t.contacts ≡ s.contacts ++ c ∷ []

of_not : (b : Bool) → not b ≡ false → b ≡ true
of_not true h = refl
of_not false h = cc

pub insert_contact-IsCreated :
    (context : TenantContext) (n : NewContact) (phone : List ℕ) (s t : Store) (c : Contact)
    → insert_contact context n phone s ≡ ok (c, t)
    → IsCreated context n phone c s t
insert_contact-IsCreated context n phone s t c h =
    let (valid, rest) =
      raise_if-bind (not (is_e164 is_ascii_digit phone))
        (integrity_error "ck_contacts_phone_e164_format")
        (gets (λ x. any (is_contact_of context phone) x.contacts) >>= λ taken.
          raise_if taken contact_phone_conflict >>= λ _.
          gets (λ x. x.supply) >>= λ id. add_contact (new_contact context n id phone))
        s t c h in
    let (free, rest') =
      raise_if-bind (any (is_contact_of context phone) s.contacts) contact_phone_conflict
        (gets (λ x. x.supply) >>= λ id. add_contact (new_contact context n id phone)) s t c rest in
    let (made, stored) = committed rest' in
    record {
      is_phone = of_not _ valid;
      free = free;
      made = sym made;
      stored = rw (sym stored, sym made) refl;
    }

module _ (is_decimal : ℕ → Bool) where
  pub create_contact-IsCreated :
      (context : TenantContext) (n : NewContact) (s t : Store) (c : Contact)
      → create_contact is_decimal context n s ≡ ok (c, t)
      → (normalize_phone_e164 is_decimal n.phone_e164 ≡ some (stripped n.phone_e164))
        × IsCreated context n (stripped n.phone_e164) c s t
  unfolding create_contact normalize_phone_e164
  create_contact-IsCreated context n s t c h =
      go (is_e164 is_decimal (stripped n.phone_e164)) refl h
    where
      go :
          (b : Bool)
          → is_e164 is_decimal (stripped n.phone_e164) ≡ b
          → created context n (if b then some (stripped n.phone_e164) else none) s ≡ ok (c, t)
          → (normalize_phone_e164 is_decimal n.phone_e164 ≡ some (stripped n.phone_e164))
            × IsCreated context n (stripped n.phone_e164) c s t
      go true e k = (rw e refl, insert_contact-IsCreated context n _ s t c k)
      go false e k = cc

  abbrev pub step : Store → TenantContext × NewContact → Store
  step s (context, n) = store_after s (create_contact is_decimal context n s)

  -- A history of calls of `create_contact` by any tenants, some of them refused.
  unfoldable pub run : Store → List (TenantContext × NewContact) → Store
  unfolding create_contact
  run s [] = s
  run s (call ∷ calls) = run (step s call) calls

  -- What every new contact keeps of a store, a history keeps.
  pub run_keeps :
      (P : Store → Type 0)
      → ((context : TenantContext) (n : NewContact) (s t : Store) (c : Contact)
          → IsCreated context n (stripped n.phone_e164) c s t
          → P s
          → P t)
      → (s : Store) (calls : List (TenantContext × NewContact)) → P s
      → P (run s calls)
  unfolding run
  run_keeps P k s [] p = p
  run_keeps P k s ((context, n) ∷ calls) p =
      run_keeps P k (step s (context, n)) calls (go (create_contact is_decimal context n s) refl)
    where
      go :
          (r : Result Error (Contact × Store))
          → create_contact is_decimal context n s ≡ r
          → P (store_after s r)
      go (ok (c, t)) e = k context n s t c (create_contact-IsCreated context n s t c e).1 p
      go (err x) e = p
