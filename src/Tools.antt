-- ===== src/Tools.antt =====
-- The tools of voiceagent/tools: the registry, the allowlist of an agent version, and the gateway
-- through which a call's engine executes a tool.
pub mod Gateway
use call_agent.Prelude.{
  String, Bool, Option, none, some, List, [], ◌∷◌, is_some, if◌then◌else◌, map,
}
use call_agent.Prelude.Eq.{string_eq}
use call_agent.Prelude.Dicts.{lookup, put}
use call_agent.Prelude.Sets.{elem}
use call_agent.Prelude.Results.{Result, ok, err}

-- What the gateway reads of a `ToolDefinition` (definitions.py). The two Pydantic models are their
-- validations; the handler's code is not part of it.
pub record ToolDefinition (Arguments Input Output Value : Type 0) : Type 0 where
  pub tool_id : String
  pub permission_action : String
  pub validate_input : Arguments → Option Input
  pub validate_output : Output → Option Value

pub data RegistryError : Type 0 where
  duplicate_tool_id unknown_tool : String → RegistryError

abbrev pub Registry : (Arguments Input Output Value : Type 0) → Type 0
Registry Arguments Input Output Value = List (String × ToolDefinition Arguments Input Output Value)

module _ {Arguments Input Output Value : Type 0} where
  unfoldable pub register :
      Registry Arguments Input Output Value
      → ToolDefinition Arguments Input Output Value
      → Result RegistryError (Registry Arguments Input Output Value)
  register registry d =
      if is_some (lookup d.tool_id registry)
      then err (duplicate_tool_id d.tool_id)
      else ok (put d.tool_id d registry)

  -- `resolve`, with `none` for an UnknownToolError
  abbrev pub resolve :
      Registry Arguments Input Output Value
      → String
      → Option (ToolDefinition Arguments Input Output Value)
  resolve registry tool_id = lookup tool_id registry

-- One entry of `config["tools"]` of an agent version.
pub record ToolBinding : Type 0 where
  pub key : String

abbrev pub allowed_tool_ids : List ToolBinding → List String
allowed_tool_ids [] = []
allowed_tool_ids (b ∷ bindings) = b.key ∷ allowed_tool_ids bindings

unfoldable pub is_tool_allowed : List ToolBinding → String → Bool
is_tool_allowed tools tool_id = elem tool_id (allowed_tool_ids tools)
