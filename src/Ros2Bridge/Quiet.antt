-- ===== src/Ros2Bridge/Quiet.antt =====
-- What the handlers of the bridge keep that write neither to its channels nor to its subscriptions.
use co_bridge.Base.{ℕ, String, List, Bool, refl, nat_keys}
use co_bridge.Base.Assoc.{Assoc, find}
use co_bridge.Base.Errors.{What, Exception}
use co_bridge.Base.Action.{throw}
use co_bridge.Base.Action.Keeps.{
  Keeps, Keeps-bind, Keeps-if, Keeps-option, Keeps-pure, Keeps-throw, Keeps-gets, Keeps-modify,
  Keeps-try_catch,
}
use co_bridge.Server.Types.{
  Server, ServerAction, Channel, ClientAdvertisement, ClientMessage, ServiceWithoutId,
}
use co_bridge.Server.Environment.{Environment, JsonLibrary}
use co_bridge.Server.Parameters.{what_of}
use co_bridge.Server.Channels.Removal.{Offers}
use co_bridge.Server.Requests
use co_bridge.Server.Invariant.Messages.{ChangesChannels, Keeps-perform}
use co_bridge.Server.Invariant.FixedChannels.{Stable-Offers}
use co_bridge.MessageDefinitions.Cache.{Cache}
use co_bridge.Ros2Bridge.State.{
  Bridge, BridgeOptions, Ros, RosCall, RosPublisher, on_server, call_ros,
}
use co_bridge.Ros2Bridge.Subscriptions.{rethrow_as}
use co_bridge.Ros2Bridge.Publications

-- `P` reads only the channels and the subscriptions.
pub record Quiet (P : Bridge → Type 0) : Type 0 where
  pub calls : (c : List RosCall) (b : Bridge) → P b → P (record b { ros_calls = c })
  pub server :
      (s : Server) (b : Bridge)
      → Offers b.server.channels b.server.next_channel_id s
      → P b
      → P (record b { server = s })
  pub definitions : (c : Cache) (b : Bridge) → P b → P (record b { definitions = c })
  pub services :
      (m : Assoc ℕ ServiceWithoutId) (b : Bridge) → P b → P (record b { advertised_services = m })
  pub publications :
      (m : Assoc ℕ (Assoc ℕ RosPublisher)) (b : Bridge)
      → P b
      → P (record b { client_advertised_topics = m })
  pub clients : (m : Assoc ℕ String) (b : Bridge) → P b → P (record b { service_clients = m })
  pub wanted : (w : Bool) (b : Bridge) → P b → P (record b { subscribe_graph_updates = w })

pub Keeps-rethrow_as :
    {A : Type 0} (P : Bridge → Type 0) (wrap : What → Exception) (x : Exception)
    → Keeps {A = A} P (rethrow_as wrap x)
Keeps-rethrow_as P wrap x =
    Keeps-option (what_of x) (throw x) (λ w. throw (wrap w)) (Keeps-throw x)
      (λ w. Keeps-throw (wrap w))

module _ {P : Bridge → Type 0} (q : Quiet P) where
  -- A call of the server that leaves its channels alone.
  pub Keeps-on_server :
      {A : Type 0} (m : ServerAction A)
      → ((channels : Assoc ℕ Channel) (next : ℕ) → Keeps (Offers channels next) m)
      → Keeps P (on_server m)
  unfolding on_server
  Keeps-on_server m keep = record {
    at = λ b h.
        q.server (m b.server).1 b
          ((keep b.server.channels b.server.next_channel_id).at b.server
            (record { all = refl; counter = refl }))
          h;
  }

  pub Keeps-call_ros : (ros : Ros) (call : RosCall) → Keeps P (call_ros ros call)
  unfolding call_ros
  Keeps-call_ros ros call = record { at = λ b h. q.calls _ b h }

  -- A request of the server that does not change what it offers.
  pub Keeps-request :
      (env : Environment) (json : JsonLibrary) (r : Requests.Request)
      → (ChangesChannels r → ⊥)
      → Keeps P (on_server (Requests.perform env json r))
  Keeps-request env json r quiet =
      Keeps-on_server _ λ channels next. Keeps-perform env json (Stable-Offers env) r quiet

  module _ (env : Environment) (ros : Ros) (options : BridgeOptions) where
    pub Keeps-client_advertise :
        (a : ClientAdvertisement) (hdl : ℕ)
        → Keeps P (Publications.client_advertise env ros options a hdl)
    unfolding Publications.client_advertise
    Keeps-client_advertise a hdl = Keeps-bind _ _ (Keeps-gets _) λ first.
        Keeps-bind _ _ (Keeps-modify _ λ b. q.publications _ b) λ _.
          Keeps-bind _ _ (Keeps-gets _) λ known. Keeps-bind _ _ (Keeps-gets _) λ endpoint.
            Keeps-if _ _ _ (Keeps-throw _) (
              Keeps-bind _ _ (Keeps-gets _) λ others.
                Keeps-try_catch _ _
                  (Keeps-bind _ _ (Keeps-call_ros ros _)
                    λ _. Keeps-modify _ λ b. q.publications _ b)
                  (Keeps-rethrow_as P _))

    Keeps-publisher_at : (id hdl : ℕ) → Keeps P (Publications.publisher_at env ros options id hdl)
    unfolding Publications.publisher_at
    Keeps-publisher_at id hdl = Keeps-bind _ _ (Keeps-gets _) λ found.
        Keeps-bind _ _ (Keeps-gets _) λ endpoint.
          Keeps-option found _ _ (Keeps-throw _)
            λ m. Keeps-option (find {V = RosPublisher} id m) _ _ (Keeps-throw _) λ p. Keeps-pure p

    pub Keeps-client_unadvertise :
        (id hdl : ℕ) → Keeps P (Publications.client_unadvertise env ros options id hdl)
    unfolding Publications.client_unadvertise
    Keeps-client_unadvertise id hdl =
        Keeps-bind _ _ (Keeps-publisher_at id hdl) λ p. Keeps-modify _ λ b. q.publications _ b

    pub Keeps-client_message :
        (m : ClientMessage) (hdl : ℕ) → Keeps P (Publications.client_message env ros options m hdl)
    unfolding Publications.client_message
    Keeps-client_message m hdl = Keeps-bind _ _ (Keeps-publisher_at _ hdl) λ p. Keeps-call_ros ros _
