-- ===== src/Server/Channels.antt =====
-- The channels and the services that the bridge offers: `add_channels`, `remove_channels`,
-- `add_services`, `remove_services`.
pub mod Registration
pub mod Removal
use co_bridge.Base.{
  ℕ, ◌+◌, ◌%◌, ◌^◌, List, [], ◌∷◌, map, if◌then◌else◌, is_empty, nat_keys, text_keys,
}
use co_bridge.Base.Assoc.{Assoc, has_key, emplace, erase, update}
use co_bridge.Base.Action.{returned, pure, gets, modify, ◌>>=◌, ◌>>◌, for_each}
use co_bridge.Server.Types
use co_bridge.Server.Types.{
  ServerAction, Channel, ChannelWithoutId, Service, ServiceWithoutId, ClientInfo, Outgoing,
}
use co_bridge.Server.Environment.{Environment, send_json}

-- One round of the loop of `add_channels`; `uint32_t` wraps.
unfoldable pub register_channel : ChannelWithoutId → ServerAction Channel
register_channel c s =
    let new_id = (s.next_channel_id + 1) % 2 ^ 32 in
    let new_channel : Channel = record { id = new_id; without_id = c } in
    (
      returned new_channel,
      record s { next_channel_id = new_id; channels = emplace new_id new_channel s.channels },
    )

unfoldable pub register_channels : List ChannelWithoutId → ServerAction (List Channel)
register_channels [] = pure []
register_channels (c ∷ cs) = do
  channel ← register_channel c
  rest ← register_channels cs
  pure (channel ∷ rest)

abbrev pub channel_id : Channel → ℕ
channel_id c = c.id

-- One round of the loop of `add_services`.
unfoldable pub register_service : ServiceWithoutId → ServerAction Service
register_service d s =
    let new_id = (s.next_service_id + 1) % 2 ^ 32 in
    (
      returned (record { id = new_id; without_id = d }),
      record s { next_service_id = new_id; services = emplace new_id d s.services },
    )

unfoldable pub register_services : List ServiceWithoutId → ServerAction (List Service)
register_services [] = pure []
register_services (d ∷ ds) = do
  service ← register_service d
  rest ← register_services ds
  pure (service ∷ rest)

abbrev pub service_id : Service → ℕ
service_id d = d.id

unfoldable pub erase_all : {V : Type 0} → List ℕ → Assoc ℕ V → Assoc ℕ V
erase_all [] m = m
erase_all (k ∷ ks) m = erase_all ks (erase k m)

unfoldable pub drop_subscriptions : List ℕ → ClientInfo → ClientInfo
drop_subscriptions ids c = record c {
  subscriptions_by_channel = erase_all ids c.subscriptions_by_channel;
}

-- The loop of `remove_services`: what is registered is erased and listed.
unfoldable pub unregister_services : List ℕ → ServerAction (List ℕ)
unregister_services [] = pure []
unregister_services (k ∷ ks) = do
  known ← gets (λ s. has_key k s.services)
  modify (λ s. record s { services = erase k s.services })
  rest ← unregister_services ks
  pure (if known then k ∷ rest else rest)

module _ (env : Environment) where
  -- `for (const auto & client : _clients) send_raw_json(client.first, msg)`
  unfoldable pub send_to_all : Outgoing → ServerAction Unit
  send_to_all msg = do
    clients ← gets (λ s. s.clients)
    for_each clients (λ c. send_json env c.0 msg)

  unfoldable pub add_channels : List ChannelWithoutId → ServerAction (List ℕ)
  add_channels channels = if is_empty channels then pure [] else do
    registered ← register_channels channels
    send_to_all (Types.advertise registered)
    pure (map channel_id registered)

  unfoldable pub remove_channels : List ℕ → ServerAction Unit
  remove_channels ids = if is_empty ids then pure tt else do
    modify (λ s. record s { channels = erase_all ids s.channels })
    clients ← gets (λ s. s.clients)
    for_each clients λ c. do
      modify (λ s. record s { clients = update c.0 (drop_subscriptions ids) s.clients })
      send_json env c.0 (Types.unadvertise ids)

  unfoldable pub add_services : List ServiceWithoutId → ServerAction (List ℕ)
  add_services services = if is_empty services then pure [] else do
    registered ← register_services services
    send_to_all (Types.advertise_services registered)
    pure (map service_id registered)

  unfoldable pub remove_services : List ℕ → ServerAction Unit
  remove_services ids = do
    removed ← unregister_services ids
    if is_empty removed then pure tt else send_to_all (Types.unadvertise_services removed)
