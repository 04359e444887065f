-- ===== src/Orchestrator/Registry/Gate.antt =====
-- What a tool call that passes the gate of the registry satisfies.
use agent_workbench.Base.{arith, String, ◌≡◌, some}
use agent_workbench.Base.Action.{returned}
use agent_workbench.Base.Json.{Fields}
use agent_workbench.Base.Python.{Python}
use agent_workbench.Mcp.Catalog.{ToolMetadata, catalog_get}
use agent_workbench.Orchestrator.Registry.{validate_tool_call}

-- The gate returns the catalog's entry.
pub validate_tool_call-catalog_get :
    (py : Python) (name : String) (args : Fields) (spec : ToolMetadata)
    → validate_tool_call py name args ≡ returned spec
    → catalog_get name ≡ some spec
unfolding validate_tool_call
validate_tool_call-catalog_get py name args spec h = ground arith
