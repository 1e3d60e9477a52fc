-- ===== src/ParameterInterface/Missed.antt =====
-- subscribe_params where the whitelist does not allow some name behind the first.
use co_bridge.Base.{text_keys}
use co_bridge.Server.Environment.{Environment}
