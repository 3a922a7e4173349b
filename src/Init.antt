-- ===== src/Init.antt =====
-- init/: the vendor's hook of init, which names the device by its market.
pub mod Properties
pub mod Variant
mod Examples
