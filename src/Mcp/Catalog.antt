-- ===== src/Mcp/Catalog.antt =====
-- The tool catalog (apps/mcp_server/catalog.py) and the contract of its entries
-- (ToolMetadata of packages/contracts/tools.py). Descriptions are left out.
pub mod Policy
use agent_workbench.Base.Dict.{Dict, lookup}
use agent_workbench.Base.{
  ℕ, String, Bool, true, false, not, ◌&&◌, ◌||◌, Option, none as missing, some, List, [], ◌∷◌, ◌==◌,
  string_eq, any, if◌then◌else◌,
}

pub data ToolCategory : Type 0 where
  read analysis write destructive : ToolCategory

pub data SideEffect : Type 0 where
  none external_write destructive : SideEffect

pub record ToolMetadata : Type 0 where
  pub name : String
  pub category : ToolCategory
  pub side_effect : SideEffect
  pub idempotent : Bool
  pub timeout_seconds : ℕ
  pub required_scopes : List String
  pub approval_required : Bool
  pub supports_dry_run : Bool
  pub owner : String
  pub version : String

abbrev pub is_write_category : ToolCategory → Bool
is_write_category ToolCategory.write = true
is_write_category ToolCategory.destructive = true
is_write_category _ = false

abbrev pub is_read_category : ToolCategory → Bool
is_read_category ToolCategory.read = true
is_read_category _ = false

abbrev pub is_destructive_category : ToolCategory → Bool
is_destructive_category ToolCategory.destructive = true
is_destructive_category _ = false

abbrev side_effect_fits : SideEffect → ToolCategory → Bool
side_effect_fits SideEffect.none c = true
side_effect_fits SideEffect.destructive c = is_destructive_category c
side_effect_fits SideEffect.external_write c = not (is_read_category c)

abbrev no_side_effect : SideEffect → Bool
no_side_effect SideEffect.none = true
no_side_effect _ = false

-- `ToolMetadata._category_policy`: whether the validator accepts the entry.
unfoldable pub category_policy : ToolMetadata → Bool
category_policy m =
    not (is_write_category m.category && not m.approval_required)
    && not (is_read_category m.category && not (no_side_effect m.side_effect))
    && side_effect_fits m.side_effect m.category

abbrev pub tool_version : String
tool_version = "1.0.0"

abbrev read_tool : String → ℕ → String → ToolMetadata
read_tool name timeout owner = record {
  name = name;
  category = ToolCategory.read;
  side_effect = SideEffect.none;
  idempotent = true;
  timeout_seconds = timeout;
  required_scopes = "tools.read" ∷ [];
  approval_required = false;
  supports_dry_run = false;
  owner = owner;
  version = tool_version;
}

abbrev pub ticket_create : ToolMetadata
ticket_create = record {
  name = "ticket.create";
  category = ToolCategory.write;
  side_effect = SideEffect.external_write;
  idempotent = false;
  timeout_seconds = 60;
  required_scopes = "tools.write.ticket.create" ∷ [];
  approval_required = true;
  supports_dry_run = true;
  owner = "platform";
  version = tool_version;
}

-- `TOOL_METADATA`
unfoldable pub tool_metadata : Dict ToolMetadata
tool_metadata =
    ("telemetry.query_metrics", read_tool "telemetry.query_metrics" 30 "telemetry")
    ∷ ("telemetry.query_logs", read_tool "telemetry.query_logs" 30 "telemetry")
    ∷ ("telemetry.get_trace", read_tool "telemetry.get_trace" 30 "telemetry")
    ∷ ("service.get_health", read_tool "service.get_health" 15 "platform")
    ∷ ("knowledge.search", read_tool "knowledge.search" 15 "knowledge")
    ∷ ("knowledge.get_runbook", read_tool "knowledge.get_runbook" 15 "knowledge")
    ∷ (
      "deployment.get_current_release",
      read_tool "deployment.get_current_release" 15 "deployments",
    )
    ∷ (
      "remediation.simulate",
      record {
        name = "remediation.simulate";
        category = ToolCategory.analysis;
        side_effect = SideEffect.none;
        idempotent = true;
        timeout_seconds = 60;
        required_scopes = "tools.read" ∷ [];
        approval_required = false;
        supports_dry_run = true;
        owner = "remediation";
        version = tool_version;
      },
    )
    ∷ (
      "deployment.rollback",
      record {
        name = "deployment.rollback";
        category = ToolCategory.write;
        side_effect = SideEffect.external_write;
        idempotent = true;
        timeout_seconds = 60;
        required_scopes = "tools.write.deployment.rollback" ∷ [];
        approval_required = true;
        supports_dry_run = true;
        owner = "deployments";
        version = tool_version;
      },
    )
    ∷ ("ticket.create", ticket_create)
    ∷ []

-- `TOOL_METADATA.get(name)`
unfoldable pub catalog_get : String → Option ToolMetadata
unfolding tool_metadata
catalog_get name = lookup name tool_metadata

-- `WRITE_TOOLS`
abbrev pub write_tools : List String
write_tools = "deployment.rollback" ∷ "ticket.create" ∷ []

unfoldable pub is_write_tool : String → Bool
is_write_tool name = any (λ t. t == name) write_tools
