-- ===== src/Server.antt =====
-- server.py: the tools and the resource that the server offers, and how it starts.
pub mod Model
pub mod Tools
pub mod Start
pub mod Globals
pub mod Governed
pub mod Main
pub mod Authority
pub mod Accounting
pub mod Delays
pub mod Reassessing
pub mod Reading
pub mod Lateness
pub mod Serving
pub mod Tests
