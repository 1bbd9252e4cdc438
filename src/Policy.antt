-- ===== src/Policy.antt =====
-- The policy service (services/policy/recoup_policy): the rule grammar, its comparisons, and the
-- evaluation of an action against the rules of a tenant.
pub mod Facts
pub mod Compare
pub mod Rules
pub mod Depth
pub mod Operators
pub mod Validation
pub mod Engine
pub mod Precedence
pub mod Decides
pub mod Errors
pub mod Store
pub mod Published
