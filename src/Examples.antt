-- ===== src/Examples.antt =====
-- The theorems at concrete inputs, by component.
mod Sticky
pub mod Steering
mod Probing
mod Dhcp
mod License
mod Router
pub mod Nat46
mod Pppoe
mod Dns64
mod Broadband
mod Dispatcher
mod HealthCheck
mod DynBuf
mod Links
