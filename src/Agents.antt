-- ===== src/Agents.antt =====
-- voiceagent/agents/service.py: agents and the versions of their configuration. `config_hash` is
-- `compute_config_hash`; the validation of a configuration's tool and knowledge references is the
-- test `is_valid_config`.
pub mod Kept
pub mod Immutable
use call_agent.Prelude.{
  ℕ, suc, String, Bool, true, false, not, ◌&&◌, Option, none, some, List, [], ◌∷◌, ◌++◌, leb, any,
  if◌then◌else◌,
}
use call_agent.Prelude.Eq.{◌==◌, ◌!=◌, nat_eq, string_eq, option_eq}
use call_agent.Prelude.Results.{Result, ok, err}
use call_agent.Prelude.Sets.{elem}
use call_agent.Store.{Store}
use call_agent.Store.Rows.{TenantContext, Agent, VersionRow}
use call_agent.Store.Errors.{
  Error, integrity_error, agent_not_found, agent_version_not_found, agent_version_not_draft,
  agent_version_not_published, invalid_agent_config, missing_id, missing_for,
}
use call_agent.Store.Table.{find_row, update_row}
use call_agent.Store.Tx.{Tx, ◌>>=◌, ◌>>◌, pure, raise, raise_if, gets, modify, new_uuid}

abbrev found_agent : TenantContext → ℕ → Option Agent → Tx Agent
found_agent context id none = raise (agent_not_found id)
found_agent context id (some agent) = do
  raise_if (agent.tenant_id != context.tenant_id) (agent_not_found id)
  pure agent

-- `_get_agent_row`
unfoldable pub get_agent : TenantContext → ℕ → Tx Agent
unfolding find_row
get_agent context id s = found_agent context id (find_row (λ (a : Agent). a.id) id s.agents) s

abbrev pub found_version : TenantContext → ℕ → Option VersionRow → Tx VersionRow
found_version context id none = raise (agent_version_not_found (missing_id id))
found_version context id (some version) = do
  raise_if (version.tenant_id != context.tenant_id) (agent_version_not_found (missing_id id))
  pure version

-- `_get_version_row`
unfoldable pub get_agent_version : TenantContext → ℕ → Tx VersionRow
unfolding find_row
get_agent_version context id s =
    found_version context id (find_row (λ (v : VersionRow). v.id) id s.agent_versions) s

-- `uq_agents_tenant_name` and `ck_agents_status`, checked when an agent's row is flushed
abbrev name_taken : Agent → List Agent → Bool
name_taken agent agents =
    any (λ a. a.id != agent.id && a.tenant_id == agent.tenant_id && a.name == agent.name) agents

abbrev check_agent : Agent → Tx (Unit {0})
check_agent agent = do
  raise_if (not (elem agent.status ("active" ∷ "archived" ∷ [])))
      (integrity_error "ck_agents_status")
  taken ← gets (λ s. name_taken agent s.agents)
  raise_if taken (integrity_error "uq_agents_tenant_name")

abbrev pub write_agent : Agent → Store → Store
write_agent agent s = record s { agents = update_row (λ (a : Agent). a.id) agent s.agents }

abbrev pub write_version : VersionRow → Store → Store
write_version version s = record s {
  agent_versions = update_row (λ (v : VersionRow). v.id) version s.agent_versions;
}

abbrev new_agent : TenantContext → ℕ → String → Option String → Agent
new_agent context id name description = record {
  id = id;
  tenant_id = context.tenant_id;
  name = name;
  description = description;
  status = "active";
  draft_version_id = none;
  published_version_id = none;
}

unfoldable pub create_agent : TenantContext → String → Option String → Tx Agent
create_agent context name description = do
  id ← new_uuid
  check_agent (new_agent context id name description)
  modify (λ s. record s { agents = s.agents ++ new_agent context id name description ∷ [] })
  pure (new_agent context id name description)

abbrev or_keep_name : Option String → String → String
or_keep_name none old = old
or_keep_name (some new) old = new

abbrev or_keep_text : Option String → Option String → Option String
or_keep_text none old = old
or_keep_text (some new) old = some new

unfoldable pub update_agent :
    TenantContext → ℕ → Option String → Option String → Option String → Tx Agent
unfolding get_agent update_row
update_agent context id name description status = do
  agent ← get_agent context id
  let agent' = record agent {
    name = or_keep_name name agent.name;
    description = or_keep_text description agent.description;
    status = or_keep_name status agent.status;
  }
  check_agent agent'
  modify (write_agent agent')
  pure agent'

-- `(max(existing_numbers) if existing_numbers else 0) + 1`
unfoldable pub last_number : ℕ → List VersionRow → ℕ
last_number agent_id [] = 0
last_number agent_id (v ∷ versions) =
    let rest = last_number agent_id versions in
    if v.agent_id == agent_id
    then (if leb v.version_number rest then rest else v.version_number)
    else rest

module _ (config_hash : String → String) (is_valid_config : String → Bool) where
  abbrev pub draft : TenantContext → ℕ → ℕ → ℕ → String → VersionRow
  draft context agent_id id number config = record {
    id = id;
    tenant_id = context.tenant_id;
    agent_id = agent_id;
    version_number = number;
    status = "draft";
    config = config;
    config_hash = config_hash config;
    published_at = none;
    published_by = none;
  }

  unfoldable pub create_draft_version : TenantContext → ℕ → String → Tx VersionRow
  unfolding get_agent last_number update_row
  create_draft_version context agent_id config = do
    raise_if (not (is_valid_config config)) invalid_agent_config
    agent ← get_agent context agent_id
    last ← gets (λ s. last_number agent_id s.agent_versions)
    id ← new_uuid
    modify (λ s. record s {
      agent_versions = s.agent_versions ++ draft context agent_id id (suc last) config ∷ [];
    })
    modify (write_agent (record agent { draft_version_id = some id }))
    pure (draft context agent_id id (suc last) config)

abbrev publish : Agent → VersionRow → Agent
publish agent version = record agent {
  published_version_id = some version.id;
  draft_version_id =
      if agent.draft_version_id == some version.id then none else agent.draft_version_id;
}

abbrev audit : String → TenantContext → ℕ → Store → Store
audit action context id s = record s {
  audit =
      record { action = action; tenant_id = context.tenant_id; resource_id = id; count = 0 }
      ∷ s.audit;
}

unfoldable pub publish_version : TenantContext → ℕ → ℕ → Tx VersionRow
unfolding get_agent get_agent_version update_row
publish_version context agent_id version_id = do
  agent ← get_agent context agent_id
  version ← get_agent_version context version_id
  raise_if (version.agent_id != agent_id) (agent_version_not_found (missing_id version_id))
  raise_if (version.status != "draft") (agent_version_not_draft version_id)
  now ← gets (λ s. s.now)
  let version' = record version {
    status = "published";
    published_at = some now;
    published_by = some context.actor_id;
  }
  modify (λ s.
      audit "agent.published" context version_id
        (write_agent (publish agent version) (write_version version' s)))
  pure version'

unfoldable pub archive_version : TenantContext → ℕ → ℕ → Tx VersionRow
unfolding get_agent get_agent_version update_row
archive_version context agent_id version_id = do
  agent ← get_agent context agent_id
  version ← get_agent_version context version_id
  raise_if (version.agent_id != agent_id) (agent_version_not_found (missing_id version_id))
  raise_if (version.status != "published") (agent_version_not_published version_id)
  let version' = record version { status = "archived" }
  modify (λ s. audit "agent.version_archived" context version_id (write_version version' s))
  pure version'

abbrev or_missing : Option ℕ → String → Result Error ℕ
or_missing none text = err (agent_version_not_found (missing_for text))
or_missing (some id) text = ok id

unfoldable pub select_agent_version_id : Agent → String → Option ℕ → Result Error ℕ
select_agent_version_id agent pin_mode pinned_version_id =
    if pin_mode == "pinned"
    then or_missing pinned_version_id "pinned_version_id is not set"
    else or_missing agent.published_version_id "agent has no published version"
