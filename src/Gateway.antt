-- ===== src/Gateway.antt =====
-- src/gateway/gateway.py: the fanout, the dispatch to one client, and the subscriptions.
pub mod Dispatch
pub mod PubSub
pub mod Registry
pub mod Subscribing
pub mod Lifecycle
pub mod Stream
