-- ===== src/Server/Frames.antt =====
-- What the bridge sends to clients as binary frames: `send_message`, `broadcast_time`,
-- `send_service_response`, `send_fetch_asset_response`.
pub mod Messages
use co_bridge.Base.{
  ℕ, ◌%◌, ◌^◌, List, [], ◌∷◌, ◌++◌, Option, none, some, if◌then◌else◌, length, nat_keys, text_keys,
}
use co_bridge.Base.Assoc.{find}
use co_bridge.Base.Action.{returned, pure, gets, ◌>>=◌, ◌>>◌, for_each}
use co_bridge.Wire.{write_uint32_le, write_uint64_le, ServiceResponse, write_response}
use co_bridge.Server.Types
use co_bridge.Server.Types.{Server, ServerAction, FetchAssetResponse, FetchAssetStatus, Outgoing}
use co_bridge.Server.Environment.{Environment, send_json}

-- `BinaryOpcode`
abbrev pub message_data : ℕ
message_data = 1

abbrev pub time_data : ℕ
time_data = 2

abbrev pub service_call_response : ℕ
service_call_response = 3

abbrev pub fetch_asset_response : ℕ
fetch_asset_response = 4

-- The header of a message, and the payload behind it.
unfoldable pub message_frame : ℕ → ℕ → List ℕ → List ℕ
message_frame sub_id timestamp payload =
    message_data ∷ (write_uint32_le sub_id ++ (write_uint64_le timestamp ++ payload))

unfoldable pub time_frame : ℕ → List ℕ
time_frame timestamp = time_data ∷ write_uint64_le timestamp

abbrev pub status_code : FetchAssetStatus → ℕ
status_code FetchAssetStatus.success = 0
status_code FetchAssetStatus.error = 1

-- The bytes that stand for a text or data under a status that has it, and none under the other.
abbrev pub error_part : FetchAssetResponse → List ℕ
error_part r = elim r.status [
  | FetchAssetStatus.error ↦ r.error_message
  | FetchAssetStatus.success ↦ []
]

abbrev pub data_part : FetchAssetResponse → List ℕ
data_part r = elim r.status [ FetchAssetStatus.error ↦ [] | FetchAssetStatus.success ↦ r.bytes ]

-- The length field is that of the error message whatever the status is.
unfoldable pub asset_frame : FetchAssetResponse → List ℕ
asset_frame r =
    fetch_asset_response
    ∷ (write_uint32_le r.request_id
        ++ (status_code r.status
            ∷ (write_uint32_le (length r.error_message % 2 ^ 32) ++ (error_part r ++ data_part r))))

module _ (env : Environment) where
  -- `get_con_from_hdl(hdl, ec)` with a return if there is no connection, then `send` on it.
  unfoldable pub send_if_connected : ℕ → Outgoing → ServerAction Unit
  send_if_connected hdl msg s =
      if env.connected s.trace hdl
      then (returned tt, record s { trace = Types.sent hdl msg ∷ s.trace })
      else (returned tt, s)

  unfoldable pub subscription_of : ℕ → ℕ → Server → Option ℕ
  subscription_of hdl chan_id s = elim (find hdl s.clients) [
    | none ↦ none
    | some client ↦ find chan_id client.subscriptions_by_channel
  ]

  unfoldable pub send_message : ℕ → ℕ → ℕ → List ℕ → ServerAction Unit
  send_message hdl chan_id timestamp payload = do
    subscription ← gets (subscription_of hdl chan_id)
    elim subscription [
      | none ↦ pure tt
      | some sub_id ↦ send_if_connected hdl (Types.binary (message_frame sub_id timestamp payload))
    ]

  unfoldable pub broadcast_time : ℕ → ServerAction Unit
  broadcast_time timestamp = do
    clients ← gets (λ s. s.clients)
    for_each clients (λ c. send_json env c.0 (Types.binary (time_frame timestamp)))

  unfoldable pub send_service_response : ℕ → ServiceResponse → ServerAction Unit
  send_service_response hdl response =
      send_json env hdl (Types.binary (service_call_response ∷ write_response response))

  unfoldable pub send_fetch_asset_response : ℕ → FetchAssetResponse → ServerAction Unit
  send_fetch_asset_response hdl response =
      send_if_connected hdl (Types.binary (asset_frame response))
