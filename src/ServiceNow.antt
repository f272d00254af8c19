-- ===== src/ServiceNow.antt =====
-- governance/servicenow.py: the connector to ServiceNow and its two backends.
pub mod Model
pub mod Mock
pub mod Live
pub mod Backend
pub mod Tests
