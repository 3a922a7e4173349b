-- ===== src/System.antt =====
-- The fingerprint HAL (fingerprint/) as a client of the touch helper (syshelper/), through the calls
-- of IUdfpsHelper.
pub mod Whole
pub mod Expiry
pub mod Touch
mod Examples
