-- ===== src/Manager.antt =====
-- manager: the service that keeps the tunnels, and its protocol. Strings of the protocol's frames are
-- lists of bytes.
pub mod Tests
pub mod Frames
pub mod Host
pub mod Service
pub mod Available
pub mod Display
pub mod Profiles
pub mod Protocol
pub mod Server
pub mod Events
