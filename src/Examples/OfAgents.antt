-- ===== src/Examples/OfAgents.antt =====
-- The theorem on agent versions at one agent with a draft.
use call_agent.Prelude.{◌≡◌, refl, String, Bool, true, none, some, List, [], ◌∷◌}
use call_agent.Store.{Store}
use call_agent.Store.Rows.{TenantContext, Agent, VersionRow}
use call_agent.Agents.Kept.{version_row, IsKept}
use call_agent.Agents.Immutable.{AgentCall, drafting, publishing, archiving, run, run-AreKept}
use call_agent.Examples.{tenant, call_with, store_with}

abbrev agent : Agent
agent = record {
  id = 20;
  tenant_id = 7;
  name = "Empfang";
  description = none;
  status = "active";
  draft_version_id = some 21;
  published_version_id = none;
}

abbrev first_draft : VersionRow
first_draft = record {
  id = 21;
  tenant_id = 7;
  agent_id = 20;
  version_number = 1;
  status = "draft";
  config = "{}";
  config_hash = "{}";
  published_at = none;
  published_by = none;
}

abbrev configured : Store
configured = record (store_with (call_with 1 "ringing" none none) []) {
  agents = agent ∷ [];
  agent_versions = first_draft ∷ [];
}

abbrev same_text : String → String
same_text config = config

abbrev any_config : String → Bool
any_config config = true

abbrev calls : List (TenantContext × AgentCall)
calls =
    (tenant, publishing 20 21)
    ∷ (tenant, drafting 20 "{1}")
    ∷ (tenant, archiving 20 21)
    ∷ (tenant, publishing 20 21)
    ∷ []

there : version_row configured 21 ≡ some first_draft
unfolding version_row call_agent.Store.Table.find_row
there = refl

run-AreKept_example :
    (v : VersionRow) × (version_row (run same_text any_config configured calls) 21 ≡ some v)
    × IsKept first_draft v
run-AreKept_example = run-AreKept same_text any_config configured calls 21 first_draft there

-- The version is published, and then archived for good.
ends_archived :
    version_row (run same_text any_config configured calls) 21
    ≡ some (record first_draft {
      status = "archived";
      published_at = some 5000;
      published_by = some 70;
    })
unfolding run version_row
ends_archived = refl
