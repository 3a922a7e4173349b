-- ===== src/Sensors.antt =====
-- sensors/: the sub-HAL of the multi-HAL sensors service, with its one sensor.
pub mod Types
pub mod Scan
pub mod ScanLaws
pub mod Sensor
pub mod Thread
pub mod Histories
pub mod Sampling
pub mod Wakeups
pub mod Shutdown
pub mod OneShot
pub mod Presses
pub mod Liveness
pub mod EarlyStart
pub mod SubHal
pub mod Dispatch
pub mod Reachable
pub mod Lifting
pub mod Modes
pub mod EndToEnd
pub mod Deliveries
pub mod Periods
mod Samples
mod Examples
mod ScanExamples
mod SubHalExamples
