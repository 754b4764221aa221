-- ===== src/Parsing.antt =====
-- The parsers of messages and requests: `_parse_event` of src/engine/engine.py and of
-- src/storage/tick_writer.py, `_parse_pubsub_event`, `_parse_subscription_filter`, `_parse_encoding`
-- and `_parse_history_params` of src/gateway/gateway.py.
pub mod Events
pub mod Requests
pub mod History
