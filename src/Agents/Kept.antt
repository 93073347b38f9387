-- ===== src/Agents/Kept.antt =====
-- What one operation keeps of the versions.
use call_agent.Prelude.{
  true-false, ℕ, suc, ◌≡◌, ◌⊎◌, inl, inr, refl, sym, ap, subst, some_injective, ◌∙◌, arith, String,
  Bool, false, not, Option, none, some, [], ◌∷◌, ◌++◌, Bool-cases, nat_beq, nat_beq_iff,
}
use call_agent.Prelude.Eq.{◌!=◌, nat_eq, string_eq, option_eq}
use call_agent.Prelude.Results.{ok}
use call_agent.Store.{Store}
use call_agent.Store.Rows.{TenantContext, Agent, VersionRow}
use call_agent.Store.Errors.{
  agent_version_not_found, missing_id, agent_version_not_draft, agent_version_not_published,
  invalid_agent_config,
}
use call_agent.Store.Tx.{raise_if-bind, >>=-eq-ok, committed}
use call_agent.Store.Table.{
  find_row, update_row, find_row-update_row, find_row-append, find_row-key,
}
use call_agent.Agents.{
  get_agent, get_agent_version, found_version, create_agent, update_agent, draft,
  create_draft_version, publish_version, archive_version, last_number,
}

-- The row of a version, if there is one.
unfoldable pub version_row : Store → ℕ → Option VersionRow
version_row s id = find_row (λ (v : VersionRow). v.id) id s.agent_versions

-- The snapshot is the same, and so are the times of publication once there are any; the status is the
-- same or a later one.
pub record IsKept (v v' : VersionRow) : Type 0 where
  pub agent_id : v'.agent_id ≡ v.agent_id
  pub version_number : v'.version_number ≡ v.version_number
  pub config : v'.config ≡ v.config
  pub config_hash : v'.config_hash ≡ v.config_hash
  pub published :
      v.status ≡ "published"
      → ((v'.status ≡ "published") ⊎ (v'.status ≡ "archived"))
        × (v'.published_at ≡ v.published_at)
        × (v'.published_by ≡ v.published_by)
  pub archived : v.status ≡ "archived" → v' ≡ v

pub IsKept-refl : (v : VersionRow) → IsKept v v
IsKept-refl v = record {
  agent_id = refl;
  version_number = refl;
  config = refl;
  config_hash = refl;
  published = λ p. (inl p, refl, refl);
  archived = λ a. refl;
}

pub IsKept-trans : (u v w : VersionRow) → IsKept u v → IsKept v w → IsKept u w
IsKept-trans u v w h k = record {
  agent_id = k.agent_id ∙ h.agent_id;
  version_number = k.version_number ∙ h.version_number;
  config = k.config ∙ h.config;
  config_hash = k.config_hash ∙ h.config_hash;
  published = λ p.
      let (status, at, by) = h.published p in
      elim status [
        | inl still ↦ let (status', at', by') = k.published still in (status', at' ∙ at, by' ∙ by)
        | inr over ↦
            let same = k.archived over in
            (
              inr (ap (λ x. x.status) same ∙ over),
              ap (λ x. x.published_at) same ∙ at,
              ap (λ x. x.published_by) same ∙ by,
            )
      ];
  archived = λ a. let same = h.archived a in k.archived (ap (λ x. x.status) same ∙ a) ∙ same;
}

-- Every version that was there is there, and kept.
abbrev pub AreKept : Store → Store → Type 0
AreKept s t =
    (id : ℕ) (v : VersionRow)
    → version_row s id ≡ some v
    → (v' : VersionRow) × (version_row t id ≡ some v') × IsKept v v'

pub same_versions : (s t : Store) → t.agent_versions ≡ s.agent_versions → AreKept s t
unfolding version_row
same_versions s t e id v h = (v, rw e h, IsKept-refl v)

appended_version :
    (s t : Store) (new : VersionRow) → t.agent_versions ≡ s.agent_versions ++ new ∷ [] → AreKept s t
unfolding version_row
appended_version s t new e id v h = (
  v,
  rw e (ground (arith, h, find_row-append (λ (x : VersionRow). x.id) id s.agent_versions new)),
  IsKept-refl v,
)

written_version :
    (s t : Store) (old new : VersionRow)
    → version_row s old.id ≡ some old
    → new.id ≡ old.id
    → IsKept old new
    → t.agent_versions ≡ update_row (λ (x : VersionRow). x.id) new s.agent_versions
    → AreKept s t
unfolding version_row
written_version s t old new at key kept e id v h = elim (Bool-cases (nat_beq old.id id)) [
  | inl same ↦
      let k : old.id ≡ id = (nat_beq_iff old.id id).0 same in
      let there : find_row (λ (x : VersionRow). x.id) id s.agent_versions ≡ some old =
        subst (λ j. find_row (λ (x : VersionRow). x.id) j s.agent_versions ≡ some old) k at in
      (
        new,
        rw e (
            ground (
              arith,
              there,
              find_row-update_row (λ (x : VersionRow). x.id) id new s.agent_versions,
            )),
        subst (λ x. IsKept x new) (some_injective (sym there ∙ h)) kept,
      )
  | inr other ↦ (
    v,
    rw e
        (ground (arith, h, find_row-update_row (λ (x : VersionRow). x.id) id new s.agent_versions)),
    IsKept-refl v,
  )
]

-- A version that a transaction has read.
get_agent_version-row :
    (context : TenantContext) (id : ℕ) (s t : Store) (v : VersionRow)
    → get_agent_version context id s ≡ ok (v, t)
    → (t ≡ s) × (version_row s v.id ≡ some v)
unfolding get_agent_version version_row
get_agent_version-row context id s t v h =
    go (find_row (λ (x : VersionRow). x.id) id s.agent_versions) refl h
  where
    go :
        (o : Option VersionRow)
        → find_row (λ (x : VersionRow). x.id) id s.agent_versions ≡ o
        → found_version context id o s ≡ ok (v, t)
        → (t ≡ s) × (find_row (λ (x : VersionRow). x.id) v.id s.agent_versions ≡ some v)
    go none e p = cc
    go (some x) e p =
        let (mine, q) =
          raise_if-bind (x.tenant_id != context.tenant_id) (agent_version_not_found (missing_id id))
            _ s t v p in
        let (same, kept) = committed q in
        let k : x.id ≡ id = find_row-key (λ (y : VersionRow). y.id) id s.agent_versions x e in
        (
          sym kept,
          subst (λ y. find_row (λ (z : VersionRow). z.id) y.id s.agent_versions ≡ some y) same
              (subst (λ j. find_row (λ (z : VersionRow). z.id) j s.agent_versions ≡ some x) (sym k)
                e),
        )

get_agent-keeps :
    (context : TenantContext) (id : ℕ) (s t : Store) (a : Agent)
    → get_agent context id s ≡ ok (a, t)
    → t ≡ s
unfolding get_agent
get_agent-keeps context id s t a h = ground arith

pub create_agent-AreKept :
    (context : TenantContext) (name : String) (description : Option String) (s t : Store)
    (a : Agent)
    → create_agent context name description s ≡ ok (a, t)
    → AreKept s t
unfolding create_agent
create_agent-AreKept context name description s t a h = same_versions s t (ground arith)

pub update_agent-AreKept :
    (context : TenantContext) (id : ℕ) (name description status : Option String) (s t : Store)
    (a : Agent)
    → update_agent context id name description status s ≡ ok (a, t)
    → AreKept s t
unfolding update_agent get_agent
update_agent-AreKept context id name description status s t a h = same_versions s t (ground arith)

pub create_draft_version-AreKept :
    (config_hash : String → String) (is_valid_config : String → Bool) (context : TenantContext)
    (agent_id : ℕ) (config : String) (s t : Store) (v : VersionRow)
    → create_draft_version config_hash is_valid_config context agent_id config s ≡ ok (v, t)
    → AreKept s t
unfolding create_draft_version
create_draft_version-AreKept config_hash is_valid_config context agent_id config s t v h =
    let (valid, h₁) = raise_if-bind (not (is_valid_config config)) invalid_agent_config _ s t v h in
    let (agent, s₁, read, h₂) = >>=-eq-ok (get_agent context agent_id) _ s h₁ in
    appended_version s t
      (draft config_hash is_valid_config context agent_id s₁.supply
        (suc (last_number agent_id s₁.agent_versions)) config)
      (sym (ap (λ x. x.agent_versions) (committed h₂).1)
        ∙ ap
            (λ x.
              x.agent_versions
              ++ draft config_hash is_valid_config context agent_id s₁.supply
                  (suc (last_number agent_id s₁.agent_versions)) config
                ∷ [])
            (get_agent-keeps context agent_id s s₁ agent read))

other_status : {a b : String} → string_eq.equal a b ≡ false → (c : String) → c ≡ a → c ≡ b → ⊥
other_status {a} {b} n c p q = true-false ((string_eq.equal_iff a b).1 (sym p ∙ q)) n

draft-IsKept :
    (old new : VersionRow)
    → new.agent_id ≡ old.agent_id
    → new.version_number ≡ old.version_number
    → new.config ≡ old.config
    → new.config_hash ≡ old.config_hash
    → old.status ≡ "draft"
    → IsKept old new
draft-IsKept old new a n c h is_draft = record {
  agent_id = a;
  version_number = n;
  config = c;
  config_hash = h;
  published = λ p. absurd (other_status refl old.status is_draft p);
  archived = λ p. absurd (other_status refl old.status is_draft p);
}

pub publish_version-AreKept :
    (context : TenantContext) (agent_id id : ℕ) (s t : Store) (v : VersionRow)
    → publish_version context agent_id id s ≡ ok (v, t)
    → AreKept s t
unfolding publish_version
publish_version-AreKept context agent_id id s t v h =
    let (agent, s₁, read, h₁) = >>=-eq-ok (get_agent context agent_id) _ s h in
    let (old, s₂, found, h₂) = >>=-eq-ok (get_agent_version context id) _ s₁ h₁ in
    let (of_agent, h₃) =
      raise_if-bind (old.agent_id != agent_id) (agent_version_not_found (missing_id id)) _ s₂ t v
        h₂ in
    let (is_draft, h₄) =
      raise_if-bind (old.status != "draft") (agent_version_not_draft id) _ s₂ t v h₃ in
    let new = record old {
      status = "published";
      published_at = some s₂.now;
      published_by = some context.actor_id;
    } in
    let (kept, at) = get_agent_version-row context id s₁ s₂ old found in
    let same : s₂ ≡ s = kept ∙ get_agent-keeps context agent_id s s₁ agent read in
    subst (λ x. AreKept x t) same
      (written_version s₂ t old new (subst (λ x. version_row x old.id ≡ some old) (sym kept) at)
        refl
        (draft-IsKept old new refl refl refl refl
          (ground (arith, string_eq.equal_iff old.status "draft")))
        (ap (λ x. x.agent_versions) (sym (committed h₄).1)))

pub archive_version-AreKept :
    (context : TenantContext) (agent_id id : ℕ) (s t : Store) (v : VersionRow)
    → archive_version context agent_id id s ≡ ok (v, t)
    → AreKept s t
unfolding archive_version
archive_version-AreKept context agent_id id s t v h =
    let (agent, s₁, read, h₁) = >>=-eq-ok (get_agent context agent_id) _ s h in
    let (old, s₂, found, h₂) = >>=-eq-ok (get_agent_version context id) _ s₁ h₁ in
    let (of_agent, h₃) =
      raise_if-bind (old.agent_id != agent_id) (agent_version_not_found (missing_id id)) _ s₂ t v
        h₂ in
    let (is_published, h₄) =
      raise_if-bind (old.status != "published") (agent_version_not_published id) _ s₂ t v h₃ in
    let was : old.status ≡ "published" =
      ground (arith, string_eq.equal_iff old.status "published") in
    let (kept, at) = get_agent_version-row context id s₁ s₂ old found in
    let same : s₂ ≡ s = kept ∙ get_agent-keeps context agent_id s s₁ agent read in
    subst (λ x. AreKept x t) same
      (written_version s₂ t old (record old { status = "archived" })
        (subst (λ x. version_row x old.id ≡ some old) (sym kept) at) refl
        (record {
          agent_id = refl;
          version_number = refl;
          config = refl;
          config_hash = refl;
          published = λ p. (inr refl, refl, refl);
          archived = λ p. absurd (other_status refl old.status was p);
        })
        (ap (λ x. x.agent_versions) (sym (committed h₄).1)))
