-- ===== src/Agents/Immutable.antt =====
-- What no history of operations changes of a version.
use call_agent.Prelude.{ℕ, ◌≡◌, refl, String, Bool, Option, some, List, [], ◌∷◌}
use call_agent.Prelude.Eq.{nat_eq, string_eq, option_eq}
use call_agent.Prelude.Results.{Result, ok, err}
use call_agent.Store.{Store}
use call_agent.Store.Rows.{TenantContext, VersionRow}
use call_agent.Store.Errors.{Error}
use call_agent.Store.Tx.{store_after}
use call_agent.Agents.{
  create_agent, update_agent, create_draft_version, publish_version, archive_version,
}
use call_agent.Agents.Kept.{
  version_row, IsKept, IsKept-refl, IsKept-trans, AreKept, same_versions, create_agent-AreKept,
  update_agent-AreKept, create_draft_version-AreKept, publish_version-AreKept,
  archive_version-AreKept,
}

-- One call of the service.
pub data AgentCall : Type 0 where
  creating : String → Option String → AgentCall
  updating : ℕ → Option String → Option String → Option String → AgentCall
  drafting : ℕ → String → AgentCall
  publishing archiving : ℕ → ℕ → AgentCall

module _ (config_hash : String → String) (is_valid_config : String → Bool) where
  abbrev pub step : Store → TenantContext × AgentCall → Store
  step s (context, creating name description) =
      store_after s (create_agent context name description s)
  step s (context, updating id name description status) =
      store_after s (update_agent context id name description status s)
  step s (context, drafting agent_id config) =
      store_after s (create_draft_version config_hash is_valid_config context agent_id config s)
  step s (context, publishing agent_id id) = store_after s (publish_version context agent_id id s)
  step s (context, archiving agent_id id) = store_after s (archive_version context agent_id id s)

  -- A history of calls of any tenants.
  unfoldable pub run : Store → List (TenantContext × AgentCall) → Store
  unfolding create_agent update_agent create_draft_version publish_version archive_version
  run s [] = s
  run s (call ∷ calls) = run (step s call) calls

  after :
      {A : Type 0} (s : Store) (r : Result Error (A × Store))
      → ((t : Store) (a : A) → r ≡ ok (a, t) → AreKept s t)
      → AreKept s (store_after s r)
  after s (ok (a, t)) k = k t a refl
  after s (err x) k = same_versions s s refl

  step-AreKept : (s : Store) (call : TenantContext × AgentCall) → AreKept s (step s call)
  step-AreKept s (context, creating name description) =
      after s (create_agent context name description s)
        (create_agent-AreKept context name description s)
  step-AreKept s (context, updating id name description status) =
      after s (update_agent context id name description status s)
        (update_agent-AreKept context id name description status s)
  step-AreKept s (context, drafting agent_id config) =
      after s (create_draft_version config_hash is_valid_config context agent_id config s)
        (create_draft_version-AreKept config_hash is_valid_config context agent_id config s)
  step-AreKept s (context, publishing agent_id id) =
      after s (publish_version context agent_id id s)
        (publish_version-AreKept context agent_id id s)
  step-AreKept s (context, archiving agent_id id) =
      after s (archive_version context agent_id id s)
        (archive_version-AreKept context agent_id id s)

  -- In any history of calls of the service by any tenants, a version that exists keeps its agent, its
  -- number, its configuration and its hash. From its publication on it also keeps when and by whom it
  -- was published, and its status only goes from published to archived; an archived one never changes.
  pub run-AreKept :
      (s : Store) (calls : List (TenantContext × AgentCall)) (id : ℕ) (v : VersionRow)
      → version_row s id ≡ some v
      → (v' : VersionRow) × (version_row (run s calls) id ≡ some v') × IsKept v v'
  unfolding run
  run-AreKept s [] id v h = (v, h, IsKept-refl v)
  run-AreKept s (call ∷ calls) id v h =
      let (v₁, h₁, k₁) = step-AreKept s call id v h in
      let (v₂, h₂, k₂) = run-AreKept (step s call) calls id v₁ h₁ in
      (v₂, h₂, IsKept-trans v v₁ v₂ k₁ k₂)
