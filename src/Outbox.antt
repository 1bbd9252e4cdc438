-- ===== src/Outbox.antt =====
-- The transactional outbox (libs/recoup-common/recoup_common/events/outbox.py): the rows that a
-- service writes beside its state change, and the relay that publishes them.
pub mod Rows
pub mod Relay
pub mod Order
unfoldable pub use Rows.*
