-- ===== src/Syshelper.antt =====
-- syshelper/: the IUdfpsHelper service, which keeps the touch state and a list of callbacks.
pub mod Types
pub mod LinkedCallback
pub mod UdfpsHelper
pub mod Links
pub mod Registry
pub mod Safety
pub mod Members
pub mod Refinement
pub mod TestClient
pub mod Service
pub mod Expiry
pub mod Watchdog
pub mod Timing
pub mod Noticing
pub mod Touches
mod Examples
mod ServiceExamples
