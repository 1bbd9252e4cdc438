-- ===== src/Tools.antt =====
-- The tool gateway's deterministic tools (services/tool-gateway/recoup_tool_gateway/tools).
pub mod Invoices
pub mod Reconcile
pub mod Credit
pub mod Caps
pub mod Plan
