-- ===== src/Server/Frames/Messages.antt =====
-- What a subscriber gets of a message.
use co_bridge.Base.{ℕ, ◌+◌, ◌*◌, ◌^◌, ◌<◌, ◌≡◌, refl, List, ◌∷◌, true, some, drop, nat_keys, arith}
use co_bridge.Base.Action.{returned, ◌>>=◌, gets}
use co_bridge.Wire.{read_uint32_le, write_uint32_le, write_uint64_le}
use co_bridge.Server.Types
use co_bridge.Server.Types.{Server}
use co_bridge.Server.Environment.{Environment}
use co_bridge.Server.Frames.{
  message_data, message_frame, send_if_connected, subscription_of, send_message,
}

-- A frame by its positions.
message_frame-fields :
    (sub_id timestamp : ℕ) (payload : List ℕ)
    → sub_id < 2 ^ 32
    → timestamp < 2 ^ 64
    → let frame = message_frame sub_id timestamp payload in
      (frame ≡ message_data ∷ drop 1 frame)
      × (read_uint32_le (drop 1 frame) ≡ sub_id)
      × (read_uint32_le (drop 5 frame) + read_uint32_le (drop 9 frame) * 2 ^ 32 ≡ timestamp)
      × (drop 13 frame ≡ payload)
unfolding message_frame write_uint32_le write_uint64_le read_uint32_le
message_frame-fields sub_id timestamp payload h k = (refl, omega arith, omega arith, refl)

-- To a connected client with a subscription to the channel, `send_message` sends one frame, and
-- that frame reads back as the opcode, the subscription's id, the two halves of the time stamp and
-- the payload, where the numbers fit their fields.
pub send_message-delivers :
    (env : Environment) (hdl chan_id sub_id timestamp : ℕ) (payload : List ℕ) (s : Server)
    → subscription_of env hdl chan_id s ≡ some sub_id
    → env.connected s.trace hdl ≡ true
    → sub_id < 2 ^ 32
    → timestamp < 2 ^ 64
    → (frame : List ℕ) × (send_message env hdl chan_id timestamp payload s
        ≡ (returned tt, record s { trace = Types.sent hdl (Types.binary frame) ∷ s.trace }))
      × (frame ≡ message_data ∷ drop 1 frame)
      × (read_uint32_le (drop 1 frame) ≡ sub_id)
      × (read_uint32_le (drop 5 frame) + read_uint32_le (drop 9 frame) * 2 ^ 32 ≡ timestamp)
      × (drop 13 frame ≡ payload)
unfolding send_message ◌>>=◌ gets send_if_connected
send_message-delivers env hdl chan_id sub_id timestamp payload s found connected h k = (
  message_frame sub_id timestamp payload,
  rw (found, connected) refl,
  (message_frame-fields sub_id timestamp payload h k).0,
  (message_frame-fields sub_id timestamp payload h k).1,
  (message_frame-fields sub_id timestamp payload h k).2,
  (message_frame-fields sub_id timestamp payload h k).3,
)
