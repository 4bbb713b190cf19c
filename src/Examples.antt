-- ===== src/Examples.antt =====
-- The theorems at concrete inputs.
mod Fleet
mod Parts
mod Passes
mod Running
mod Taken
mod Access
mod Downloads
mod Reports
mod Workers
mod Services
mod Setup
mod Install
