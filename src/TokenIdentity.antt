-- ===== src/TokenIdentity.antt =====
-- provider/token_identity.py: bearers bound to identities, and the policy of a bearer.
pub mod Registry
pub mod Recency
pub mod Closed
pub mod Uses
mod Tests
