-- ===== src/Ros1Bridge/Assets.antt =====
-- fetch_asset, ros_message_handler and the clock of the ROS 1 nodelet.
use Prim.Native.String.{◌++◌ as append}
use co_bridge.Base.{ℕ, String, List, [], Bool, not, ◌&&◌, none, some, if◌then◌else◌}
use co_bridge.Base.Errors.{Exception, standard, text}
use co_bridge.Base.Text.{has_part}
use co_bridge.Base.Action.{pure, throw, try_catch, ◌>>=◌, ◌>>◌}
use co_bridge.Server.Types.{FetchAssetResponse, success, error}
use co_bridge.Server.Environment.{Environment}
use co_bridge.Server.Frames.{send_message, broadcast_time, send_fetch_asset_response}
use co_bridge.Server.Parameters.{what_of}
use co_bridge.Server.Subscriptions.{is_whitelisted}
use co_bridge.Server.Dispatch.{bytes_of}
use co_bridge.Ros1Bridge.State.{NodeletAction, NodeletOptions, Master, retrieve, ask, on_server}

module _ (env : Environment) (master : Master) (options : NodeletOptions) where
  unfoldable pub is_allowed_asset : String → Bool
  unfolding has_part is_whitelisted
  is_allowed_asset uri =
      not (has_part uri "..") && is_whitelisted env uri options.asset_uri_allowlist_patterns

  -- The body of the `try`: the response with the data of the resource.
  unfoldable pub retrieve_asset : String → ℕ → NodeletAction FetchAssetResponse
  unfolding is_allowed_asset ask
  retrieve_asset uri request_id =
      if is_allowed_asset uri
      then ask master (retrieve uri)
        >> pure (record {
          request_id = request_id;
          status = success;
          error_message = [];
          bytes = master.resource uri;
        })
      else throw (standard (text (append "Asset URI not allowed: " uri)))

  -- The handler of std::exception; another value is not caught.
  unfoldable pub asset_error : String → ℕ → Exception → NodeletAction FetchAssetResponse
  unfolding bytes_of
  asset_error uri request_id x = elim (what_of x) [
    | none ↦ throw x
    | some w ↦ pure (record {
      request_id = request_id;
      status = error;
      error_message = bytes_of (append "Failed to retrieve asset " uri);
      bytes = [];
    })
  ]

  unfoldable pub fetch_asset : String → ℕ → ℕ → NodeletAction Unit
  unfolding retrieve_asset asset_error on_server
  fetch_asset uri request_id hdl =
      try_catch (retrieve_asset uri request_id) (asset_error uri request_id) >>= λ response.
      on_server (send_fetch_asset_response env hdl response)

  -- With the time of the receipt.
  unfoldable pub ros_message_handler : ℕ → ℕ → List ℕ → ℕ → NodeletAction Unit
  unfolding on_server
  ros_message_handler channel_id hdl message receipt_time =
      on_server (send_message env hdl channel_id receipt_time message)

  unfoldable pub clock_received : ℕ → NodeletAction Unit
  unfolding on_server
  clock_received nanoseconds = on_server (broadcast_time env nanoseconds)
