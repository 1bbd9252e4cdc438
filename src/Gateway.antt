-- ===== src/Gateway.antt =====
-- The tool gateway (services/tool-gateway/recoup_tool_gateway): which tools may be registered, and what a
-- call of a tool has to pass before it runs.
pub mod Registry
pub mod Invoke
pub mod Guard
pub mod Limits
pub mod Window
