-- ===== src/Gateway/Stream/Raises.antt =====
-- Which messages end a connection of src/gateway/gateway.py without an answer.
use realtime_market_data_pla.Common.{nat_Key, string_Key, pair_Key}
use realtime_market_data_pla.Gateway.Lifecycle.{Gateway}
