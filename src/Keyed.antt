-- ===== src/Keyed.antt =====
-- The key based storage programs of vagrant-environment: key_based_improved (Improved), which
-- ask for the number of the partner, and key_based_storage (Storage), which send one message.
pub mod Setup
pub mod Orderly
pub mod Improved
pub mod Storage
pub mod Typed
mod Tests
