-- ===== src/Fingerprint.antt =====
-- fingerprint/: the biometrics HAL that wraps the vendor's fingerprint service and drives the
-- display nodes and the touch helper.
pub mod Types
pub mod Nodes
pub mod Requests
pub mod Callbacks
pub mod Steps
pub mod Display
pub mod Light
pub mod Forwarding
pub mod Delivery
pub mod UdfpsExtension
mod Examples
