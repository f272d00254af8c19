-- ===== src/Verifier.antt =====
-- governance/verifier.py: from a bearer token to an `AccessToken`, and what the policy reads of it.
pub mod Tokens
pub mod Checking
pub mod Keys
pub mod Accepting
pub mod Genuine
pub mod Tests
