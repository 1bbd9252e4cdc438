-- ===== src/Tests.antt =====
-- Concrete inputs on which the theorems apply.
mod CaseData
mod Cases
mod Actions
mod Policies
mod Published
mod Gateway
mod Others
mod Orchestrator
mod Erp
mod Communication
mod Analytics
mod Agents
mod Limits
