-- ===== src/Checks.antt =====
-- Tests by evaluation, and the theorems at inputs that exercise the code.
mod Data
mod Scenario
mod Records
mod Service
mod Worlds
mod Harness
mod Pages
mod CrossChecks
mod Tools
mod SameLog
