-- ===== src/Server/Subscriptions.antt =====
-- What a client subscribes to and what it advertises: `handle_subscribe`, `handle_unsubscribe`,
-- `handle_advertise`, `handle_unadvertise` and `handle_fetch_asset`.
use co_bridge.Base.{
  ℕ, String, List, [], ◌∷◌, Bool, not, ◌&&◌, Option, none, some, if◌then◌else◌, ◌==◌, any, insert,
  remove, nat_keys, text_keys,
}
use co_bridge.Base.Assoc.{Assoc, find, has_key, emplace, erase, update, is_some}
use co_bridge.Base.Action.{pure, gets, lift, modify, ◌>>=◌, ◌>>◌, for_each}
use co_bridge.Server.Types
use co_bridge.Server.Types.{Server, ServerAction, ClientAdvertisement, ClientInfo}
use co_bridge.Server.Environment.{Environment, JsonLibrary, call_handler, send_status}
use co_bridge.Server.Graph.{client_at, write_client}

-- `find_subscription_by_sub_id`: the channel of the first entry with that subscription id.
unfoldable pub find_subscription_by_sub_id : Assoc ℕ ℕ → ℕ → Option ℕ
find_subscription_by_sub_id [] sub_id = none
find_subscription_by_sub_id ((channel, id) ∷ m) sub_id =
    if id == sub_id then some channel else find_subscription_by_sub_id m sub_id

-- `is_whitelisted`: some pattern matches the name.
unfoldable pub is_whitelisted : Environment → String → List String → Bool
is_whitelisted env name patterns = any (env.regex_match name) patterns

abbrev pub add_subscription : ℕ → ℕ → ClientInfo → ClientInfo
add_subscription channel_id sub_id c = record c {
  subscriptions_by_channel = emplace channel_id sub_id c.subscriptions_by_channel;
}

abbrev pub drop_subscription : ℕ → ClientInfo → ClientInfo
drop_subscription channel_id c = record c {
  subscriptions_by_channel = erase channel_id c.subscriptions_by_channel;
}

abbrev pub add_advertised : ℕ → ClientInfo → ClientInfo
add_advertised channel_id c = record c {
  advertised_channels = insert channel_id c.advertised_channels;
}

abbrev pub drop_advertised : ℕ → ClientInfo → ClientInfo
drop_advertised channel_id c = record c {
  advertised_channels = remove channel_id c.advertised_channels;
}

abbrev pub Publications : Type 0
Publications = Assoc ℕ ClientAdvertisement

-- The client's publications, none if it has no entry.
unfoldable pub publications_of : ℕ → Server → Publications
publications_of hdl s = elim (find hdl s.client_channels) [ none ↦ [] | some p ↦ p ]

-- A write through the reference to the client's publications.
unfoldable pub write_publications : ℕ → (Publications → Publications) → ServerAction Unit
write_publications hdl f =
    modify (λ s. record s { client_channels = update hdl f s.client_channels })

module _ (env : Environment) where
  -- One round of `handle_subscribe`. The subscription ids are compared with `snapshot`, the
  -- subscriptions that the client had when the message came.
  unfoldable pub subscribe_one : Assoc ℕ ℕ → ℕ → ℕ → ℕ → ServerAction Unit
  subscribe_one snapshot hdl sub_id channel_id = do
    known ← gets (λ s. has_key channel_id s.channels)
    if is_some (find_subscription_by_sub_id snapshot sub_id)
        then send_status env hdl Types.StatusLevel.error (Types.subscription_id_used sub_id)
        else (if not known
            then send_status env hdl Types.StatusLevel.warning
                (Types.channel_not_available channel_id)
            else (do
              call_handler env (Types.on_subscribe channel_id hdl)
              write_client hdl (add_subscription channel_id sub_id)))

  -- One round of `handle_unsubscribe`.
  unfoldable pub unsubscribe_one : Assoc ℕ ℕ → ℕ → ℕ → ServerAction Unit
  unsubscribe_one snapshot hdl sub_id = elim (find_subscription_by_sub_id snapshot sub_id) [
    | none ↦ send_status env hdl Types.StatusLevel.warning (Types.subscription_id_unknown sub_id)
    | some channel_id ↦ do
      call_handler env (Types.on_unsubscribe channel_id hdl)
      write_client hdl (drop_subscription channel_id)
  ]

  -- The end of a round of `handle_advertise`: the handler, then both records of the channel.
  unfoldable pub advertise_channel : ℕ → ClientAdvertisement → ServerAction Unit
  advertise_channel hdl advertisement = do
    call_handler env (Types.on_client_advertise advertisement hdl)
    write_client hdl (add_advertised advertisement.channel_id)
    write_publications hdl (emplace advertisement.channel_id advertisement)

  -- One round of `handle_unadvertise`.
  unfoldable pub unadvertise_one : ℕ → ℕ → ServerAction Unit
  unadvertise_one hdl channel_id = do
    publications ← gets (publications_of hdl)
    if not (has_key channel_id publications) then pure tt else (do
      call_handler env (Types.on_client_unadvertise channel_id hdl)
      client_at hdl
      write_publications hdl (erase channel_id)
      write_client hdl (drop_advertised channel_id))

module _ (env : Environment) (json : JsonLibrary) where
  open json use {Json, at, get_string, get_uint32, elements}

  unfoldable pub handle_subscribe : Json → ℕ → ServerAction Unit
  handle_subscribe payload hdl = do
    client ← client_at hdl
    subscriptions ← lift (at payload "subscriptions")
    for_each (elements subscriptions) λ sub. do
      sub_id ← lift (at sub "id") >>= λ j. lift (get_uint32 j)
      channel_id ← lift (at sub "channelId") >>= λ j. lift (get_uint32 j)
      subscribe_one env client.subscriptions_by_channel hdl sub_id channel_id

  unfoldable pub handle_unsubscribe : Json → ℕ → ServerAction Unit
  handle_unsubscribe payload hdl = do
    client ← client_at hdl
    ids ← lift (at payload "subscriptionIds")
    for_each (elements ids) λ j. do
      sub_id ← lift (get_uint32 j)
      unsubscribe_one env client.subscriptions_by_channel hdl sub_id

  -- One round of `handle_advertise`. `is_first` tells that the message made the client's entry.
  unfoldable pub advertise_one : Bool → ℕ → Json → ServerAction Unit
  advertise_one is_first hdl chan = do
    channel_id ← lift (at chan "id") >>= λ j. lift (get_uint32 j)
    publications ← gets (publications_of hdl)
    if not is_first && has_key channel_id publications
        then send_status env hdl Types.StatusLevel.error
            (Types.channel_already_advertised channel_id)
        else (do
          topic ← lift (at chan "topic") >>= λ j. lift (get_string j)
          options ← gets (λ s. s.options)
          if not (is_whitelisted env topic options.client_topic_whitelist_patterns)
              then send_status env hdl Types.StatusLevel.error
                  (Types.not_whitelisted channel_id topic)
              else (do
                encoding ← lift (at chan "encoding") >>= λ j. lift (get_string j)
                schema_name ← lift (at chan "schemaName") >>= λ j. lift (get_string j)
                advertise_channel env hdl (record {
                  channel_id = channel_id;
                  topic = topic;
                  encoding = encoding;
                  schema_name = schema_name;
                  schema = [];
                })))

  unfoldable pub handle_advertise : Json → ℕ → ServerAction Unit
  handle_advertise payload hdl = do
    known ← gets (λ s. has_key hdl s.client_channels)
    modify (λ s. record s { client_channels = emplace hdl [] s.client_channels })
    channels ← lift (at payload "channels")
    for_each (elements channels) (advertise_one (not known) hdl)

  unfoldable pub handle_unadvertise : Json → ℕ → ServerAction Unit
  handle_unadvertise payload hdl = do
    known ← gets (λ s. has_key hdl s.client_channels)
    if not known
        then send_status env hdl Types.StatusLevel.error Types.no_advertised_channels
        else (do
          ids ← lift (at payload "channelIds")
          for_each (elements ids)
              λ j. do channel_id ← lift (get_uint32 j); unadvertise_one env hdl channel_id)

  unfoldable pub handle_fetch_asset : Json → ℕ → ServerAction Unit
  handle_fetch_asset payload hdl = do
    uri ← lift (at payload "uri") >>= λ j. lift (get_string j)
    request_id ← lift (at payload "requestId") >>= λ j. lift (get_uint32 j)
    call_handler env (Types.on_fetch_asset uri request_id hdl)
