-- ===== src/Examples.antt =====
-- A small office on which the theorems are tried: its rows, and the calls that run on it.
mod Office
mod Contexts
mod Designs
mod Devices
mod Frames
mod Rings
mod Runs
mod Service
mod Starts
mod Transfers
pub use Office.*
