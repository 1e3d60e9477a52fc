-- ===== src/Server/Invariant/Sends.antt =====
-- What sends and handler calls leave alone: everything but the trace.
use co_bridge.Base.{ℕ, List, Bool, true, false, if◌then◌else◌}
use co_bridge.Base.Action.{Outcome}
use co_bridge.Base.Action.Keeps.{Keeps}
use co_bridge.Server.Types.{Server, Event, Outgoing, HandlerCall, StatusLevel, StatusText}
use co_bridge.Server.Environment.{
  Environment, call_handler, connection_send, send_json, send_status,
}
use co_bridge.Server.Frames.{send_if_connected}

-- `P` does not read the trace.
abbrev pub Untraced : (Server → Type 0) → Type 0
Untraced P = (s : Server) (t : List Event) → P s → P (record s { trace = t })

module _ {P : Server → Type 0} (u : Untraced P) where
  traced_or_same :
      (b : Bool) (o o' : Outcome Unit) (s : Server) (t : List Event)
      → P s
      → let r : Outcome Unit × Server = if b then (o, record s { trace = t }) else (o', s) in P r.1
  traced_or_same true o o' s t p = u s t p
  traced_or_same false o o' s t p = p

  module _ (env : Environment) where
    pub Keeps-call_handler : (call : HandlerCall) → Keeps P (call_handler env call)
    unfolding call_handler
    Keeps-call_handler call = record { at = λ s p. traced_or_same _ _ _ s _ p }

    pub Keeps-connection_send : (hdl : ℕ) (msg : Outgoing) → Keeps P (connection_send env hdl msg)
    unfolding connection_send
    Keeps-connection_send hdl msg = record { at = λ s p. traced_or_same _ _ _ s _ p }

    pub Keeps-send_json : (hdl : ℕ) (msg : Outgoing) → Keeps P (send_json env hdl msg)
    unfolding send_json
    Keeps-send_json hdl msg = record { at = λ s p. traced_or_same _ _ _ s _ p }

    pub Keeps-send_if_connected :
        (hdl : ℕ) (msg : Outgoing) → Keeps P (send_if_connected env hdl msg)
    unfolding send_if_connected
    Keeps-send_if_connected hdl msg = record { at = λ s p. traced_or_same _ _ _ s _ p }

    pub Keeps-send_status :
        (hdl : ℕ) (level : StatusLevel) (text : StatusText)
        → Keeps P (send_status env hdl level text)
    unfolding send_status
    Keeps-send_status hdl level text = Keeps-send_json hdl _

pub ruleset sends_rules = (
  Keeps-call_handler, Keeps-connection_send, Keeps-send_json, Keeps-send_if_connected,
  Keeps-send_status,
)
