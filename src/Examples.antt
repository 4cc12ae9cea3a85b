-- ===== src/Examples.antt =====
-- The theorems at concrete inputs, and runs of the code on small ones.
mod Machines
mod Alarms
mod Properties
mod Helpers
mod Configuration
mod Plugin
mod CommandLine
