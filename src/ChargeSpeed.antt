-- ===== src/ChargeSpeed.antt =====
-- chargespeed/: the setting that limits the charging current.
pub mod CoolDown
pub mod Decimal
pub mod Histories
pub mod Nodes
pub mod Restore
pub mod Fragment
mod Examples
