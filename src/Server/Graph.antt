-- ===== src/Server/Graph.antt =====
-- The connection graph: `update_connection_graph`, and its subscriptions.
pub mod Subscribers
pub mod Diff
use co_bridge.Base.{
  ℕ, String, List, [], ◌∷◌, ◌++◌, map, Bool, true, false, not, ◌&&◌, none, some, if◌then◌else◌,
  is_empty, length, copy_if, contains, insert_all, nat_keys, text_keys, nat_eq,
}
use co_bridge.Base.Assoc.{find, update}
use co_bridge.Base.Errors.{standard, out_of_range}
use co_bridge.Base.Int.{Count, increment, decrement, is_nat}
use co_bridge.Base.Action.{returned, thrown, pure, gets, modify, ◌>>=◌, ◌>>◌, for_each}
use co_bridge.Server.Types
use co_bridge.Server.Types.{
  Server, ServerAction, ClientInfo, MapOfSets, ConnectionGraph, GraphUpdate,
}
use co_bridge.Server.Environment.{
  Environment, call_handler, connection_send, send_json, send_status,
}

unfoldable pub all_in : List String → List String → Bool
all_in [] zs = true
all_in (w ∷ ws) zs = contains w zs && all_in ws zs

-- `==` of two `std::unordered_set`
unfoldable pub same_set : List String → List String → Bool
same_set xs ys = nat_eq (length xs) (length ys) && all_in xs ys

-- `iter == end() || old[name] != ids`
unfoldable pub differs_from : MapOfSets → String × List String → Bool
differs_from old entry = elim (find entry.0 old) [
  | none ↦ true
  | some ids ↦ not (same_set ids entry.1)
]

-- The entries of the new map that the old one lacks or has with other ids.
unfoldable pub changed_entries : MapOfSets → MapOfSets → MapOfSets
changed_entries old new = copy_if (differs_from old) new

abbrev key_of : String × List String → String
key_of entry = entry.0

unfoldable pub names_of : MapOfSets → List String
names_of m = map key_of m

-- The names that were known and are not there any more.
unfoldable pub removed_names : List String → List String → List String
removed_names known current = copy_if (λ n. not (contains n current)) (insert_all known [])

unfoldable pub graph_diff : ConnectionGraph → MapOfSets → MapOfSets → MapOfSets → GraphUpdate
graph_diff old published subscribed services = record {
  published_topics = changed_entries old.published_topics published;
  subscribed_topics = changed_entries old.subscribed_topics subscribed;
  advertised_services = changed_entries old.advertised_services services;
  removed_topics =
      removed_names (names_of old.published_topics ++ names_of old.subscribed_topics)
        (names_of published ++ names_of subscribed);
  removed_services = removed_names (names_of old.advertised_services) (names_of services);
}

unfoldable pub is_empty_update : GraphUpdate → Bool
is_empty_update u =
    is_empty u.published_topics
    && is_empty u.subscribed_topics
    && is_empty u.advertised_services
    && is_empty u.removed_topics
    && is_empty u.removed_services

-- The whole graph, as a client gets it when it subscribes.
abbrev pub full_update : ConnectionGraph → GraphUpdate
full_update g = record {
  published_topics = g.published_topics;
  subscribed_topics = g.subscribed_topics;
  advertised_services = g.advertised_services;
  removed_topics = [];
  removed_services = [];
}

-- `_clients.at(hdl)`
unfoldable pub client_at : ℕ → ServerAction ClientInfo
client_at hdl s = elim (find hdl s.clients) [
  | none ↦ (thrown (standard out_of_range), s)
  | some info ↦ (returned info, s)
]

-- A write to `_clients.at(hdl)`
unfoldable pub write_client : ℕ → (ClientInfo → ClientInfo) → ServerAction Unit
write_client hdl f = do
  client_at hdl >>= λ _. modify (λ s. record s { clients = update hdl f s.clients })

abbrev pub flag : Bool → ClientInfo → ClientInfo
flag b c = record c { subscribed_to_connection_graph = b }

abbrev pub count_by : (Count → Count) → Server → Server
count_by f s = record s {
  connection_graph = record s.connection_graph {
    subscription_count = f s.connection_graph.subscription_count;
  };
}

abbrev pub subscription_count : Server → Count
subscription_count s = s.connection_graph.subscription_count

module _ (env : Environment) where
  -- `_server.send` throws where `send_json` does not.
  unfoldable pub send_update : GraphUpdate → ServerAction Unit
  send_update u = do
    clients ← gets (λ s. s.clients)
    for_each clients λ c.
        if c.1.subscribed_to_connection_graph
        then connection_send env c.0 (Types.graph_update u)
        else pure tt

  unfoldable pub update_connection_graph : MapOfSets → MapOfSets → MapOfSets → ServerAction Unit
  update_connection_graph published subscribed services = do
    update ← gets (λ s. graph_diff s.connection_graph published subscribed services)
    modify (λ s. record s {
      connection_graph = record s.connection_graph {
        published_topics = published;
        subscribed_topics = subscribed;
        advertised_services = services;
      };
    })
    if is_empty_update update then pure tt else send_update update

  unfoldable pub handle_subscribe_connection_graph : ℕ → ServerAction Unit
  handle_subscribe_connection_graph hdl = do
    modify (count_by increment)
    first ← gets (λ s. is_nat 1 (subscription_count s))
    if first
        then (do
          call_handler env (Types.on_subscribe_connection_graph true)
          write_client hdl (flag true))
        else pure tt
    graph ← gets (λ s. s.connection_graph)
    send_json env hdl (Types.graph_update (full_update graph))

  unfoldable pub handle_unsubscribe_connection_graph : ℕ → ServerAction Unit
  handle_unsubscribe_connection_graph hdl = do
    client ← client_at hdl
    if client.subscribed_to_connection_graph
        then (do
          modify (λ s. record s { clients = update hdl (flag false) s.clients })
          modify (count_by decrement)
          last ← gets (λ s. is_nat 0 (subscription_count s))
          if last then call_handler env (Types.on_subscribe_connection_graph false) else pure tt)
        else send_status env hdl Types.StatusLevel.error Types.not_subscribed_to_graph
