-- ===== src/Force.antt =====
-- VirtualForce_linux/force_interface.h and force_interface.c: the shared memory between the
-- controller and the force core. Each static pointer of force_interface.c is an `Option` of what it
-- points to, `none` for NULL; an access through NULL is a fault, the `none` of a result. A child
-- module has the operations of each region.
pub mod Regions
pub mod Codes
pub mod Service
pub mod Params
pub mod Exchange
pub mod Handshake
pub mod Slots
