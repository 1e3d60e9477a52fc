-- ===== src/Server/Dispatch/Failures.antt =====
-- Messages that fail: what becomes of exceptions, and of operations without their capability.
use co_bridge.Base.{
  ℕ, String, List, ◌∷◌, Bool-cases, inl, inr, if◌then◌else◌, ◌≡◌, refl, false, Option, none, some,
  contains, nat_keys, text_keys,
}
use co_bridge.Base.Assoc.{find}
use co_bridge.Base.Errors.{What}
use co_bridge.Base.Action.{
  Outcome, returned, thrown, lift, gets, pure, try_catch, handle_exception, ◌>>=◌,
}
use co_bridge.Server.Types
use co_bridge.Server.Types.{Server, ServerAction, Event}
use co_bridge.Server.Environment.{Environment, JsonLibrary, send_json, send_status}
use co_bridge.Server.Parameters.{what_of}
use co_bridge.Server.Dispatch.{
  Message, dispatch_message, handle_message, capability_by_client_operation, has_capability,
  missing_capability, handle_text_message,
}
use co_bridge.Server.Sessions.Closing.{Performs-send_json}

module _ (env : Environment) (hdl : ℕ) where
  status_sent :
      (level : Types.StatusLevel) (text : Types.StatusText) (s : Server)
      → (t : List Event) × (send_status env hdl level text s
          ≡ (returned tt, record s { trace = t }))
  unfolding send_status
  status_sent level text s = (Performs-send_json env hdl (Types.status level text)).at s

  -- The `catch` clauses of `handle_message`.
  report : Option What → ServerAction Unit
  report w = elim w [
    | some e ↦ send_status env hdl Types.StatusLevel.error (Types.what_text e)
    | none ↦ send_status env hdl Types.StatusLevel.error Types.handler_failed
  ]

  report-returns : (w : Option What) (s : Server) → (report w s).0 ≡ returned tt
  unfolding report
  report-returns none s = rw (status_sent Types.StatusLevel.error Types.handler_failed s).1 refl
  report-returns (some e) s = rw (status_sent Types.StatusLevel.error (Types.what_text e) s).1 refl

  handled-returns :
      (o : Outcome Unit) (s : Server)
      → (handle_exception o (λ x. report (what_of x)) s).0 ≡ returned tt
  handled-returns (returned a) s = refl
  handled-returns (thrown x) s = report-returns (what_of x) s

module _ (env : Environment) (json : JsonLibrary) where
  open json use {Json, parse, at, get_string}

  -- Handling a message always returns: no exception of the parser, of a handler or of a connection
  -- that is gone leaves `handle_message`.
  pub handle_message-returns :
      (hdl : ℕ) (msg : Message) (s : Server) → (handle_message env json hdl msg s).0 ≡ returned tt
  unfolding handle_message try_catch report
  handle_message-returns hdl msg s =
      handled-returns env hdl (dispatch_message env json hdl msg s).0
        (dispatch_message env json hdl msg s).1

  -- A text message that parses, and whose operation asks for a capability that the server lacks, is answered, where
  -- the connection is up, with the one error status that names the operation and the capability. Nothing else is
  -- sent, called or changed; its handling returns.
  pub handle_text_message-refused :
      (hdl : ℕ) (text op capability : String) (payload member : Json) (s : Server)
      → parse text ≡ returned payload
      → at payload "op" ≡ returned member
      → get_string member ≡ returned op
      → find op capability_by_client_operation ≡ some capability
      → contains capability s.options.capabilities ≡ false
      → let answer =
          Types.status Types.StatusLevel.error (Types.capability_missing op capability) in
        handle_text_message env json hdl text s ≡ (
          returned tt,
          record s {
            trace = if env.connected s.trace hdl then Types.sent hdl answer ∷ s.trace else s.trace;
          },
        )
  unfolding handle_text_message ◌>>=◌ lift missing_capability has_capability gets pure send_status
      send_json
  handle_text_message-refused hdl text op capability payload member s p a g f c =
      rw (p, a, g, f, c)
        (elim (Bool-cases (env.connected s.trace hdl)) [
          | inl up ↦ rw up refl
          | inr gone ↦ rw gone refl
        ])
