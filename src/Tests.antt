-- ===== src/Tests.antt =====
-- Runs of the program on one small task, a transaction and a trial, and the theorems applied to them.
mod Data
mod Scenario
mod Executions
mod Tasks
mod Transactions
mod Modules
mod Gateways
mod Services
mod Starts
mod Acceptances
