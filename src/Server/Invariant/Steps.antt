-- ===== src/Server/Invariant/Steps.antt =====
-- From the parts of the server that change its state to every request, and to every run.
use co_bridge.Base.{ℕ, String, List, [], ◌∷◌, Option, some, ◌≡◌, nat_keys, text_keys}
use co_bridge.Base.Assoc.{Assoc, find, erase, emplace}
use co_bridge.Base.Action.{modify}
use co_bridge.Base.Action.Keeps.{
  Keeps, Keeps-modify, Keeps-bind, Keeps-gets, Keeps-pure, Keeps-try_catch, Keeps-option,
  keeps_rules,
}
use co_bridge.Parameter.{Parameter}
use co_bridge.Server.Types.{
  Server, ServerOptions, ChannelWithoutId, ServiceWithoutId, ClientAdvertisement, ClientInfo,
  MapOfSets,
}
use co_bridge.Server.Environment.{Environment, JsonLibrary}
use co_bridge.Server.Invariant.Sends.{Untraced, sends_rules}
use co_bridge.Server.Channels
use co_bridge.Server.Parameters
use co_bridge.Server.Parameters.{what_of}
use co_bridge.Server.Graph
use co_bridge.Server.Sessions
use co_bridge.Server.Subscriptions

-- What an invariant is asked for: one field for each part of the server that writes to its state, those that write
-- to the channels under the condition `C`.
pub record Stable (C : Type 0) (env : Environment) (P : Server → Type 0) : Type 0 where
  pub untraced : Untraced P
  pub register_channel : C → (c : ChannelWithoutId) → Keeps P (Channels.register_channel c)
  pub register_service : (d : ServiceWithoutId) → Keeps P (Channels.register_service d)
  pub erase_service : (k : ℕ) (s : Server) → P s → P (record s { services = erase k s.services })
  pub remove_channels : C → (ids : List ℕ) → Keeps P (Channels.remove_channels env ids)
  pub params :
      (m : Assoc ℕ (List String)) (s : Server)
      → P s
      → P (record s { client_param_subscriptions = m })
  pub options : (o : ServerOptions) (s : Server) → P s → P (record s { options = o })
  pub graph :
      (p t d : MapOfSets) (s : Server)
      → P s
      → P (record s {
        connection_graph = record s.connection_graph {
          published_topics = p;
          subscribed_topics = t;
          advertised_services = d;
        };
      })
  pub subscribe_graph : (hdl : ℕ) → Keeps P (Graph.handle_subscribe_connection_graph env hdl)
  pub unsubscribe_graph : (hdl : ℕ) → Keeps P (Graph.handle_unsubscribe_connection_graph env hdl)
  pub login :
      (user_name user_id : String) (hdl : ℕ) → Keeps P (Sessions.login env user_name user_id hdl)
  pub close_client :
      (hdl : ℕ) (c : ClientInfo) (s : Server)
      → find hdl s.clients ≡ some c
      → P s
      → P (Sessions.close_client env hdl c s).1
  pub subscribe_one :
      (snapshot : Assoc ℕ ℕ) (hdl sub_id channel_id : ℕ)
      → Keeps P (Subscriptions.subscribe_one env snapshot hdl sub_id channel_id)
  pub unsubscribe_one :
      (snapshot : Assoc ℕ ℕ) (hdl sub_id : ℕ)
      → Keeps P (Subscriptions.unsubscribe_one env snapshot hdl sub_id)
  pub new_publications :
      (hdl : ℕ) (s : Server)
      → P s
      → P (record s { client_channels = emplace hdl [] s.client_channels })
  pub advertise_channel :
      (hdl : ℕ) (a : ClientAdvertisement) → Keeps P (Subscriptions.advertise_channel env hdl a)
  pub unadvertise_one : (hdl id : ℕ) → Keeps P (Subscriptions.unadvertise_one env hdl id)

module _ {C : Type 0} (env : Environment) (json : JsonLibrary) {P : Server → Type 0}
    (st : Stable C env P) where
  pub Keeps-erase_service :
      (k : ℕ) → Keeps P (modify (λ s. record s { services = erase k s.services }))
  Keeps-erase_service k = Keeps-modify _ (st.erase_service k)

  pub Keeps-params :
      (f : Server → Assoc ℕ (List String))
      → Keeps P (modify (λ s. record s { client_param_subscriptions = f s }))
  Keeps-params f = Keeps-modify _ (λ s. st.params (f s) s)

  pub Keeps-options :
      (f : Server → ServerOptions) → Keeps P (modify (λ s. record s { options = f s }))
  Keeps-options f = Keeps-modify _ (λ s. st.options (f s) s)

  pub Keeps-new_publications :
      (hdl : ℕ)
      → Keeps P (modify (λ s. record s { client_channels = emplace hdl [] s.client_channels }))
  Keeps-new_publications hdl = Keeps-modify _ (st.new_publications hdl)

  pub Keeps-graph :
      (p t d : MapOfSets)
      → Keeps P (
          modify (λ s. record s {
            connection_graph = record s.connection_graph {
              published_topics = p;
              subscribed_topics = t;
              advertised_services = d;
            };
          }))
  Keeps-graph p t d = Keeps-modify _ (st.graph p t d)

  pub Keeps-register_channels :
      C → (cs : List ChannelWithoutId) → Keeps P (Channels.register_channels cs)
  unfolding Channels.register_channels
  Keeps-register_channels may [] = search keeps_rules
  Keeps-register_channels may (c ∷ cs) =
      search (keeps_rules, Keeps-register_channels may cs, st.register_channel may c)

  pub Keeps-register_services :
      (ds : List ServiceWithoutId) → Keeps P (Channels.register_services ds)
  unfolding Channels.register_services
  Keeps-register_services [] = search keeps_rules
  Keeps-register_services (d ∷ ds) =
      search (keeps_rules, Keeps-register_services ds, st.register_service d)

  pub Keeps-unregister_services : (ks : List ℕ) → Keeps P (Channels.unregister_services ks)
  unfolding Channels.unregister_services
  Keeps-unregister_services [] = search keeps_rules
  Keeps-unregister_services (k ∷ ks) = Keeps-bind _ _ (Keeps-gets _) λ known.
      Keeps-bind _ _ (Keeps-erase_service k)
        λ _. Keeps-bind _ _ (Keeps-unregister_services ks) λ rest. Keeps-pure _

  pub Keeps-add_channels : C → (cs : List ChannelWithoutId) → Keeps P (Channels.add_channels env cs)
  unfolding Channels.add_channels Channels.send_to_all
  Keeps-add_channels may cs =
      search (keeps_rules, Keeps-register_channels may, sends_rules, st.untraced) depth 9

  pub Keeps-add_services : (ds : List ServiceWithoutId) → Keeps P (Channels.add_services env ds)
  unfolding Channels.add_services Channels.send_to_all
  Keeps-add_services cs =
      search (keeps_rules, Keeps-register_services, sends_rules, st.untraced) depth 9

  pub Keeps-remove_services : (ks : List ℕ) → Keeps P (Channels.remove_services env ks)
  unfolding Channels.remove_services Channels.send_to_all
  Keeps-remove_services ks =
      search (keeps_rules, Keeps-unregister_services, sends_rules, st.untraced) depth 9

  pub Keeps-publish_parameter_values :
      (hdl : ℕ) (ps : List Parameter) (id : Option String)
      → Keeps P (Parameters.publish_parameter_values env hdl ps id)
  unfolding Parameters.publish_parameter_values
  Keeps-publish_parameter_values hdl ps id = search (sends_rules, st.untraced)

  pub Keeps-update_parameter_values :
      (ps : List Parameter) → Keeps P (Parameters.update_parameter_values env ps)
  unfolding Parameters.update_parameter_values
  Keeps-update_parameter_values ps = search (keeps_rules, Keeps-publish_parameter_values) depth 9

  pub Keeps-notify_unsubscribed :
      (hdl : ℕ) (names : List String) → Keeps P (Parameters.notify_unsubscribed env hdl names)
  unfolding Parameters.notify_unsubscribed
  Keeps-notify_unsubscribed hdl names = Keeps-try_catch _ _ (search (sends_rules, st.untraced)) λ x.
      Keeps-option (what_of x) _ _ (search (sends_rules, st.untraced))
        (search (sends_rules, st.untraced))

  pub Keeps-unsubscribe_params :
      (hdl : ℕ) (names : List String)
      → Keeps P (Parameters.unsubscribe_params_without_subscriptions env hdl names)
  unfolding Parameters.unsubscribe_params_without_subscriptions
  Keeps-unsubscribe_params hdl names = search (keeps_rules, Keeps-notify_unsubscribed) depth 9

  pub Keeps-subscribe_parameters :
      (hdl : ℕ) (names : List String) → Keeps P (Parameters.subscribe_parameters env hdl names)
  unfolding Parameters.subscribe_parameters
  Keeps-subscribe_parameters hdl names =
      search (keeps_rules, Keeps-params, sends_rules, st.untraced) depth 9

  pub Keeps-unsubscribe_parameters :
      (hdl : ℕ) (names : List String) → Keeps P (Parameters.unsubscribe_parameters env hdl names)
  unfolding Parameters.unsubscribe_parameters
  Keeps-unsubscribe_parameters hdl names =
      search (keeps_rules, Keeps-params, Keeps-unsubscribe_params) depth 9

  pub Keeps-update_connection_graph :
      (p t d : MapOfSets) → Keeps P (Graph.update_connection_graph env p t d)
  unfolding Graph.update_connection_graph Graph.send_update
  Keeps-update_connection_graph p t d =
      search (keeps_rules, Keeps-graph, sends_rules, st.untraced) depth 12

  pub Keeps-connection_opened : (hdl : ℕ) → Keeps P (Sessions.handle_connection_opened env hdl)
  unfolding Sessions.handle_connection_opened
  Keeps-connection_opened hdl =
      search (keeps_rules, Keeps-options, sends_rules, st.untraced) depth 14
