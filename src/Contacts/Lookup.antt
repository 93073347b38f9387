-- ===== src/Contacts/Lookup.antt =====
-- A contact is found by its phone number.
use call_agent.Prelude.{
  ℕ, ◌≡◌, Bool, refl, sym, ◌∙◌, ap, subst, true, some, List, [], ◌∷◌, find_first, find_first-append,
  find_first-append_none, find_first-eq_none,
}
use call_agent.Prelude.Eq.{nat_eq, list_eq, beq_refl}
use call_agent.Prelude.Results.{ok}
use call_agent.Store.{Store}
use call_agent.Store.Rows.{TenantContext, Contact}
use call_agent.Contacts.{
  stripped, is_contact_of, NewContact, normalize_phone_e164, create_contact,
  lookup_contact_by_phone,
}
use call_agent.Contacts.Created.{IsCreated, create_contact-IsCreated, run, run_keeps}

IsCreated-found :
    (context : TenantContext) (n : NewContact) (phone : List ℕ) (s t : Store) (c : Contact)
    → IsCreated context n phone c s t
    → find_first (is_contact_of context phone) t.contacts ≡ some c
IsCreated-found context n phone s t c k = rw k.stored (
    find_first-append_none (is_contact_of context phone) s.contacts c
      (find_first-eq_none (is_contact_of context phone) s.contacts k.free)
      (subst (λ x. is_contact_of context phone x ≡ true) (sym k.made)
        (rw (beq_refl context.tenant_id, beq_refl phone) refl)))

module _ (is_decimal : ℕ → Bool) where
  same_phone :
      (raw raw' : List ℕ)
      → stripped raw ≡ stripped raw'
      → normalize_phone_e164 is_decimal raw ≡ normalize_phone_e164 is_decimal raw'
  unfolding normalize_phone_e164
  same_phone raw raw' e = rw e refl

  -- After a committed `create_contact` and any history of others, of any tenants, a lookup with the
  -- same tenant and the same number, in whatever way it is punctuated, returns the created contact.
  -- That contact is the tenant's, with the given name and the number without its punctuation.
  pub lookup-create :
      (context : TenantContext) (n : NewContact) (s t : Store) (c : Contact)
      (calls : List (TenantContext × NewContact)) (raw : List ℕ)
      → create_contact is_decimal context n s ≡ ok (c, t)
      → stripped raw ≡ stripped n.phone_e164
      → (lookup_contact_by_phone is_decimal context raw (run is_decimal t calls)
          ≡ ok (some c, run is_decimal t calls))
        × (c.tenant_id ≡ context.tenant_id)
        × (c.name ≡ n.name)
        × (c.phone_e164 ≡ stripped raw)
  unfolding lookup_contact_by_phone create_contact
  lookup-create context n s t c calls raw h e =
      let (valid, k) = create_contact-IsCreated is_decimal context n s t c h in
      let there =
        run_keeps is_decimal
          (λ v. find_first (is_contact_of context (stripped n.phone_e164)) v.contacts ≡ some c)
          (λ context' m v w d k' p. rw k'.stored (find_first-append _ v.contacts (d ∷ []) c p)) t
          calls (IsCreated-found context n (stripped n.phone_e164) s t c k) in
      (
        rw (same_phone raw n.phone_e164 e, valid, there) refl,
        ap (λ x. x.tenant_id) k.made,
        ap (λ x. x.name) k.made,
        ap (λ x. x.phone_e164) k.made ∙ sym e,
      )
