-- ===== src/Examples/OfContacts.antt =====
-- The theorems on contacts at small directories.
use call_agent.Prelude.{◌≡◌, ℕ, Bool, refl, String, none, some, List, [], ◌∷◌}
use call_agent.Prelude.Results.{ok}
use call_agent.Store.{Store}
use call_agent.Store.Rows.{TenantContext, Contact}
use call_agent.Contacts.{
  stripped, is_ascii_digit, NewContact, normalize_phone_e164, create_contact,
  lookup_contact_by_phone,
}
use call_agent.Contacts.Created.{run}
use call_agent.Contacts.Lookup.{lookup-create}
use call_agent.Contacts.Unique.{IsDirectory, run-IsDirectory}
use call_agent.Examples.{tenant, call_with, store_with}

abbrev directory : Store
directory = store_with (call_with 1 "ringing" none none) []

abbrev other_tenant : TenantContext
other_tenant = record { tenant_id = 9; actor_id = 71; membership_id = 91 }

-- "+49 (30) 12"
abbrev typed : List ℕ
typed = 43 ∷ 52 ∷ 57 ∷ 32 ∷ 40 ∷ 51 ∷ 48 ∷ 41 ∷ 32 ∷ 49 ∷ 50 ∷ []

-- "+49.30-12"
abbrev dotted : List ℕ
dotted = 43 ∷ 52 ∷ 57 ∷ 46 ∷ 51 ∷ 48 ∷ 45 ∷ 49 ∷ 50 ∷ []

abbrev plain : List ℕ
plain = 43 ∷ 52 ∷ 57 ∷ 51 ∷ 48 ∷ 49 ∷ 50 ∷ []

-- "+4" and an Arabic-Indic digit, which `\d` matches
abbrev foreign_digit : List ℕ
foreign_digit = 43 ∷ 52 ∷ 1633 ∷ []

abbrev contact_with : List ℕ → NewContact
contact_with phone = record { name = "Meier"; phone_e164 = phone; email = none }

abbrev made : Contact
made = record { id = 100; tenant_id = 7; name = "Meier"; phone_e164 = plain; email = none }

abbrev with_contact : Store
with_contact = record directory { supply = 101; contacts = made ∷ [] }

abbrev others : List (TenantContext × NewContact)
others =
    (tenant, contact_with dotted)
    ∷ (other_tenant, contact_with dotted)
    ∷ (tenant, contact_with foreign_digit)
    ∷ []

creates :
    create_contact is_ascii_digit tenant (contact_with typed) directory ≡ ok (made, with_contact)
unfolding create_contact normalize_phone_e164 call_agent.Prelude.Strip.is_space
creates = refl

same_digits : stripped dotted ≡ stripped typed
unfolding call_agent.Prelude.Strip.is_space
same_digits = refl

lookup-create_example :
    (lookup_contact_by_phone is_ascii_digit tenant dotted (run is_ascii_digit with_contact others)
      ≡ ok (some made, run is_ascii_digit with_contact others))
    × (made.tenant_id ≡ tenant.tenant_id)
    × (made.name ≡ "Meier")
    × (made.phone_e164 ≡ stripped dotted)
lookup-create_example =
    lookup-create is_ascii_digit tenant (contact_with typed) directory with_contact made others
      dotted creates same_digits

run-IsDirectory_example : IsDirectory (run is_ascii_digit directory others).contacts
run-IsDirectory_example = run-IsDirectory is_ascii_digit directory others (tt, tt)

abbrev any_digit : ℕ → Bool
any_digit c = call_agent.Prelude.leb 48 c

-- A digit of another script passes the normalisation, and the table's constraint refuses it.
refused_by_the_table :
    create_contact any_digit tenant (contact_with foreign_digit) directory
    ≡ call_agent.Prelude.Results.err
        (call_agent.Store.Errors.integrity_error "ck_contacts_phone_e164_format")
unfolding create_contact normalize_phone_e164 call_agent.Prelude.Strip.is_space
refused_by_the_table = refl
