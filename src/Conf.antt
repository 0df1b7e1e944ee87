-- ===== src/Conf.antt =====
-- conf: tunnel names, and the configurations in wg-quick's format.
pub mod RoundTrip
pub mod Name
pub mod Netip
pub mod Config
pub mod Parser
pub mod Writer
pub mod Driver
pub mod Store
pub mod Tests
