-- ===== src/Examples.antt =====
-- Runs on concrete inputs: tests of the definitions, and the theorems applied.
mod Encoding
mod Database
mod Levels
mod Commits
mod Validation
mod Simulation
mod Ordering
mod Consenting
mod Policy
mod Configuration
mod Reordering
mod Storing
mod Exchange
