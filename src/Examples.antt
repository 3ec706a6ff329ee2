-- ===== src/Examples.antt =====
-- Concrete hardware and states, and the theorems applied to them.
pub mod Board
pub mod Boards
pub mod Worker
pub mod Lines
pub mod Installs
pub mod Served
pub mod Loops
pub mod Setups
pub mod Parts
pub mod Storage
pub mod Updates
pub mod Boots
pub mod Links
pub mod Apps
