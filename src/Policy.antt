-- ===== src/Policy.antt =====
-- governance/policy.py: the policy document and the decisions it yields. `Loading` reads the
-- document, `Deciding` answers from it; the other children are about these.
pub mod Model
pub mod Loading
pub mod Deciding
pub mod Document
pub mod WellFormed
pub mod Decisions
pub mod Resources
pub mod Shipped
mod Tests
