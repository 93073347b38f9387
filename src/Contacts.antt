-- ===== src/Contacts.antt =====
-- voiceagent/contacts/service.py: contacts and their phone numbers, which are texts of code points
-- here. `is_decimal` is what `\d` of Python's `re` matches, a decimal digit of any script.

pub mod Created
pub mod Lookup
pub mod Unique
use call_agent.Prelude.{
  ℕ, suc, String, Bool, true, false, not, ◌&&◌, ◌||◌, Option, none, some, List, [], ◌∷◌, ◌++◌,
  filter, find_first, any, all, length, leb, if◌then◌else◌,
}
use call_agent.Prelude.Eq.{◌==◌, ◌!=◌, nat_eq, list_eq}
use call_agent.Prelude.Results.{ok}
use call_agent.Prelude.Strip.{is_space}
use call_agent.Store.{Store}
use call_agent.Store.Rows.{TenantContext, Contact}
use call_agent.Store.Errors.{
  Error, integrity_error, contact_not_found, contact_invalid_phone, contact_phone_conflict,
}
use call_agent.Store.Table.{find_row}
use call_agent.Store.Tx.{Tx, ◌>>=◌, ◌>>◌, pure, raise, raise_if, gets}

-- `_STRIPPABLE`: white space and `-().`
abbrev pub is_strippable : ℕ → Bool
is_strippable c = is_space c || any (λ d. c == d) (45 ∷ 40 ∷ 41 ∷ 46 ∷ [])

-- `_STRIPPABLE.sub("", raw)`
abbrev pub stripped : List ℕ → List ℕ
stripped raw = filter (λ c. not (is_strippable c)) raw

-- `^\+[1-9]\d{1,14}$` of a text without newlines, with the digits that `\d` stands for.
abbrev pub is_e164 : (ℕ → Bool) → List ℕ → Bool
is_e164 is_digit [] = false
is_e164 is_digit (c ∷ []) = false
is_e164 is_digit (c ∷ d ∷ ds) =
    c == 43 && leb 49 d && leb d 57 && all is_digit ds && leb 1 (length ds) && leb (length ds) 14

-- `[0-9]`
abbrev pub is_ascii_digit : ℕ → Bool
is_ascii_digit c = leb 48 c && leb c 57

-- The rows that `uq_contacts_tenant_phone` compares with, and those of the query by phone.
abbrev pub is_contact_of : TenantContext → List ℕ → Contact → Bool
is_contact_of context phone contact =
    contact.tenant_id == context.tenant_id && contact.phone_e164 == phone

-- The arguments of `create_contact`.
pub record NewContact : Type 0 where
  pub name : String
  pub phone_e164 : List ℕ
  pub email : Option String

abbrev pub new_contact : TenantContext → NewContact → ℕ → List ℕ → Contact
new_contact context n id phone = record {
  id = id;
  tenant_id = context.tenant_id;
  name = n.name;
  phone_e164 = phone;
  email = n.email;
}

abbrev pub add_contact : Contact → Tx Contact
add_contact contact s =
    ok (contact, record s { supply = suc s.supply; contacts = s.contacts ++ contact ∷ [] })

-- The insertion, after the table's constraints `ck_contacts_phone_e164_format` and
-- `uq_contacts_tenant_phone`. Of the two only the second gets an error of its own.
abbrev pub insert_contact : TenantContext → NewContact → List ℕ → Tx Contact
insert_contact context n phone = do
  raise_if (not (is_e164 is_ascii_digit phone)) (integrity_error "ck_contacts_phone_e164_format")
  taken ← gets (λ s. any (is_contact_of context phone) s.contacts)
  raise_if taken contact_phone_conflict
  id ← gets (λ s. s.supply)
  add_contact (new_contact context n id phone)

abbrev pub created : TenantContext → NewContact → Option (List ℕ) → Tx Contact
created context n none = raise contact_invalid_phone
created context n (some phone) = insert_contact context n phone

abbrev found_contact : TenantContext → ℕ → Option Contact → Tx Contact
found_contact context id none = raise (contact_not_found id)
found_contact context id (some contact) = do
  raise_if (contact.tenant_id != context.tenant_id) (contact_not_found id)
  pure contact

-- `_get_row`
unfoldable pub get_contact : TenantContext → ℕ → Tx Contact
unfolding find_row
get_contact context id s =
    found_contact context id (find_row (λ (c : Contact). c.id) id s.contacts) s

abbrev pub looked_up : TenantContext → Option (List ℕ) → Tx (Option Contact)
looked_up context none = pure none
looked_up context (some phone) = gets (λ s. find_first (is_contact_of context phone) s.contacts)

module _ (is_decimal : ℕ → Bool) where
  -- `normalize_phone_e164`, with `none` for a ContactInvalidPhoneError
  unfoldable pub normalize_phone_e164 : List ℕ → Option (List ℕ)
  normalize_phone_e164 raw = if is_e164 is_decimal (stripped raw) then some (stripped raw) else none

  unfoldable pub create_contact : TenantContext → NewContact → Tx Contact
  create_contact context n = created context n (normalize_phone_e164 n.phone_e164)

  unfoldable pub lookup_contact_by_phone : TenantContext → List ℕ → Tx (Option Contact)
  lookup_contact_by_phone context phone = looked_up context (normalize_phone_e164 phone)
