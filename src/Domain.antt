-- ===== src/Domain.antt =====
-- quelay-domain: priorities, errors and the metadata that the other parts share.
pub mod Priority
pub mod Error
pub mod Session
pub mod Callback
