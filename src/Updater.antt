-- ===== src/Updater.antt =====
-- updater: which release to install. Its strings are lists of bytes.
pub mod Versions
pub mod Signify
pub mod Tests
