-- ===== src/Pc.antt =====
-- SimForce_Qt: the program on the PC, a window with buttons and a socket to the controller.
pub mod Comm
pub mod States
pub mod Doubles
pub mod Truncation
pub mod Widget
pub mod Runs
pub mod Latest
pub mod Reports
pub mod Buttons
pub mod Messages
pub mod Clicks
