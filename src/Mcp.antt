-- ===== src/Mcp.antt =====
-- The MCP server: apps/mcp_server.
pub mod Libraries
pub mod Catalog
pub mod Redaction
pub mod Context
pub mod Inputs
pub mod Handlers
pub mod Calls
pub mod Audit
pub mod Executor
mod Tests
