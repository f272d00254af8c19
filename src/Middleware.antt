-- ===== src/Middleware.antt =====
-- governance/middleware.py: policy enforcement as server middleware. `Flow` has the state and the
-- results, `Listing` the filter on a list of tools, `Approving` the approval gate, and `Guards` the
-- three interception points and their dispatch.
pub mod Flow
pub mod Listing
pub mod Approving
pub mod Guards
pub mod Gate
pub mod ToolCalls
pub mod Trail
pub mod ResourceReads
pub mod RoundTrip
pub mod Visible
pub mod Untouched
mod Tests
pub mod Enforcement
