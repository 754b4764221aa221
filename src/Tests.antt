-- ===== src/Tests.antt =====
-- Concrete values, and each theorem with conditions at one of them.
mod Printing
mod Data
mod Gateways
mod Requests
mod Sessions
mod Streams
mod Writers
mod Engines
mod Lifecycles
mod Histories
mod Feeds
mod Connections
mod Benchmarks
