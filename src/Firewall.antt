-- ===== src/Firewall.antt =====
-- tunnel/firewall: the filters that keep traffic from leaving outside the tunnel.
pub mod Types
pub mod Engine
pub mod Rules
pub mod Blocker
pub mod Classifier
pub mod Policy
pub mod Enforced
pub mod Samples
mod Tests
