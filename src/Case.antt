-- ===== src/Case.antt =====
-- The case service (services/case/recoup_case): the lifecycle of a case, its operations in one
-- database transaction, and the ingestion of overdue invoices.
pub mod Status
pub mod Records
pub mod Transaction
pub mod Service
pub mod Actions
pub mod Store
pub mod Requests
pub mod Lifecycle
pub mod Trace
pub mod Traced
pub mod Moves
pub mod Audit
pub mod History
pub mod Isolation
pub mod Ingestion
pub mod Idempotence
pub mod Approvals
pub mod Keeps
pub mod Rises
pub mod Versions
pub mod Locking
pub mod ActionRows
pub mod ActionHistory
