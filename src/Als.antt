-- ===== src/Als.antt =====
-- als/default/: the service that measures the colour of a small area of the screen.
pub mod AreaCapture
pub mod Average
pub mod Brightness
mod Examples
