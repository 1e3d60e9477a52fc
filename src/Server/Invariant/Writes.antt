-- ===== src/Server/Invariant/Writes.antt =====
-- What a predicate has to survive so that it is an invariant: each single write to the state.
use co_bridge.Base.{ℕ, String, List, [], ◌∷◌, true, false, some, ◌≡◌, nat_keys, text_keys}
use co_bridge.Base.Assoc.{Assoc, find, has_key, update, erase, emplace}
use co_bridge.Base.Int.{increment, decrement, is_nat}
use co_bridge.Server.Types.{
  Server, ClientInfo, ServerOptions, ChannelWithoutId, ServiceWithoutId, ClientAdvertisement,
  MapOfSets,
}
use co_bridge.Server.Channels
use co_bridge.Server.Channels.{erase_all, drop_subscriptions}
use co_bridge.Server.Graph.{count_by, subscription_count, flag}
use co_bridge.Server.Sessions.{new_client, log_out}
use co_bridge.Server.Sessions.Login.{AllOut}
use co_bridge.Server.Sessions.Closing.{closed}
use co_bridge.Server.Subscriptions.{
  add_subscription, drop_subscription, add_advertised, drop_advertised,
}
use co_bridge.Server.Invariant.Sends.{Untraced}

-- The subscriptions to the channels are dropped for each client of the list in turn.
unfoldable pub drop_for : List ℕ → Assoc ℕ ClientInfo → Assoc ℕ ClientInfo → Assoc ℕ ClientInfo
drop_for ids [] m = m
drop_for ids (e ∷ l) m = drop_for ids l (update e.0 (drop_subscriptions ids) m)

abbrev pub write_clients : (Assoc ℕ ClientInfo → Assoc ℕ ClientInfo) → Server → Server
write_clients f s = record s { clients = f s.clients }

-- A predicate that survives each write, under what the code has tested before it. The writes to the channels are
-- asked for under the condition `C`, which is empty for a predicate that says what the channels are.
pub record Survives (C : Type 0) (P : Server → Type 0) : Type 0 where
  pub untraced : Untraced P
  pub register_channel :
      C → (c : ChannelWithoutId) (s : Server) → P s → P (Channels.register_channel c s).1
  pub register_service :
      (d : ServiceWithoutId) (s : Server) → P s → P (Channels.register_service d s).1
  pub erase_service : (k : ℕ) (s : Server) → P s → P (record s { services = erase k s.services })
  pub remove_channels :
      C
      → (ids : List ℕ) (s : Server) → P s
      → P (record s {
        channels = erase_all ids s.channels;
        clients = drop_for ids s.clients s.clients;
      })
  pub params :
      (m : Assoc ℕ (List String)) (s : Server)
      → P s
      → P (record s { client_param_subscriptions = m })
  pub options : (o : ServerOptions) (s : Server) → P s → P (record s { options = o })
  pub graph :
      (p t d : MapOfSets) (s : Server)
      → P s
      → P (record s {
        connection_graph = record s.connection_graph {
          published_topics = p;
          subscribed_topics = t;
          advertised_services = d;
        };
      })
  pub counted : (s : Server) → P s → P (count_by increment s)
  pub marked :
      (hdl : ℕ) (s : Server)
      → is_nat 1 (increment (subscription_count s)) ≡ true
      → P s
      → P (write_clients (update hdl (flag true)) (count_by increment s))
  pub unmarked :
      (hdl : ℕ) (c : ClientInfo) (s : Server)
      → find hdl s.clients ≡ some c
      → c.subscribed_to_connection_graph ≡ true
      → P s
      → P (count_by decrement (write_clients (update hdl (flag false)) s))
  pub kicked : (hdl : ℕ) (s : Server) → P s → P (write_clients (update hdl log_out) s)
  pub entered :
      (user_name user_id endpoint : String) (hdl : ℕ) (s : Server)
      → P s
      → AllOut s.clients
      → P (write_clients (emplace hdl (new_client endpoint user_name user_id hdl)) s)
  pub left :
      (hdl : ℕ) (c : ClientInfo) (s : Server)
      → find hdl s.clients ≡ some c
      → P s
      → P (closed hdl c s)
  pub subscribed :
      (hdl channel_id sub_id : ℕ) (s : Server)
      → has_key channel_id s.channels ≡ true
      → P s
      → P (write_clients (update hdl (add_subscription channel_id sub_id)) s)
  pub unsubscribed :
      (hdl channel_id : ℕ) (s : Server)
      → P s
      → P (write_clients (update hdl (drop_subscription channel_id)) s)
  pub new_publications :
      (hdl : ℕ) (s : Server)
      → P s
      → P (record s { client_channels = emplace hdl [] s.client_channels })
  pub advertised :
      (hdl : ℕ) (a : ClientAdvertisement) (s : Server)
      → P s
      → P (record s {
        clients = update hdl (add_advertised a.channel_id) s.clients;
        client_channels = update hdl (emplace a.channel_id a) s.client_channels;
      })
  pub unadvertised :
      (hdl id : ℕ) (s : Server)
      → P s
      → P (record s {
        clients = update hdl (drop_advertised id) s.clients;
        client_channels = update hdl (erase id) s.client_channels;
      })
