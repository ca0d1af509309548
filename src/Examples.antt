-- ===== src/Examples.antt =====
-- Concrete runs of the modelled code: small tables, datagrams and reports on which the theorems apply.
mod Ev
mod Policy
mod Trim
mod Wire
mod Loss
mod Fusion
mod SentCounters
mod Agent
mod Receiver
mod Topo
mod Runner
mod Scenario
mod Daemon
