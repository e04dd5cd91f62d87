-- ===== src/Tests.antt =====
-- Runs of the model at concrete inputs.
mod Targets
mod Endpoints
mod Pools
mod Pickers
mod Balancers
mod Rpcs
mod Retries
mod Outages
mod Snapshots
mod Slices
mod Probes
mod Clients
mod Lookups
mod Watches
mod Instruments
mod Deliveries
