-- ===== src/DevIdp.antt =====
-- governance/devidp.py: the development identity provider.
pub mod Provider
pub mod Issuing
pub mod Trust
pub mod Accepted
pub mod Shared
pub mod SmallLibrary
pub mod StrictLibrary
pub mod Tests
