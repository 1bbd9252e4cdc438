-- ===== src/Erp.antt =====
-- The ERP that the services work against: services/mock-erp.
pub mod Tables
pub mod Credits
pub mod Repeats
pub mod Plans
