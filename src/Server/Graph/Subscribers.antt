-- ===== src/Server/Graph/Subscribers.antt =====
-- Connection graph subscriptions while others are counted.
use co_bridge.Base.{List, ℕ, ◌≡◌, false}
use co_bridge.Base.Int.{increment, is_nat}
use co_bridge.Base.Action.{returned, ◌>>=◌, gets, modify, pure}
use co_bridge.Server.Types
use co_bridge.Server.Types.{Server, Event}
use co_bridge.Server.Environment.{Environment}
use co_bridge.Server.Graph.{
  count_by, subscription_count, full_update, handle_subscribe_connection_graph,
}
use co_bridge.Server.Sessions.Closing.{Performs-send_json}

-- A subscription to the connection graph that does not raise the count to 1 returns, and changes
-- the count and the trace alone: no client becomes marked as subscribed.
pub subscribe_later :
    (env : Environment) (hdl : ℕ) (s : Server)
    → is_nat 1 (increment (subscription_count s)) ≡ false
    → (t : List Event) × (handle_subscribe_connection_graph env hdl s
        ≡ (returned tt, record (count_by increment s) { trace = t }))
unfolding handle_subscribe_connection_graph ◌>>=◌ gets modify pure
subscribe_later env hdl s later = rw later (
    (Performs-send_json env hdl
        (Types.graph_update (full_update (count_by increment s).connection_graph))).at
      (count_by increment s))
