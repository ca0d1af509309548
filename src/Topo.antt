-- ===== src/Topo.antt =====
-- srv6_mrc/topo.py: flow identity, the choice of a pair's spines, and the address plan.
pub mod Defs
pub mod Spines
pub mod Text
pub mod Hex
pub mod Ipv6
pub mod Parsing
pub mod Addresses
pub mod Readback
pub mod Hosts
pub mod Tenants
pub mod Queues
pub mod Usids
