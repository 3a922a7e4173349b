-- ===== src/Ifaa.antt =====
-- ifaamanager/: the manager of the payment alliance's biometric interface.
pub mod Manager
pub mod Ids
pub mod Hex
pub mod Binding
pub mod Service
mod Examples
