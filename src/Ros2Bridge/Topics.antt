-- ===== src/Ros2Bridge/Topics.antt =====
-- CoBridge::update_advertised_topics: the channels follow the topics of the ROS graph.
use Prim.Native.String.{String}
use Prim.Native.Char.{code}
use co_bridge.Base.{
  ℕ, List, [], ◌∷◌, Bool, true, false, not, ◌&&◌, ◌||◌, Option, none, some, Eq, ◌==◌, ==_iff,
  nat_keys, text_keys, ◌≡◌, ◌↔◌, contains, insert, if◌then◌else◌, nat_eq, arith,
}
use co_bridge.Base.Assoc.{Assoc, emplace, erase}
use co_bridge.Base.Errors.{Exception, standard, unknown, text}
use co_bridge.Base.Text.{has_part}
use co_bridge.Base.Action.{
  Outcome, returned, thrown, pure, throw, gets, lift, modify, try_catch, ◌>>=◌, ◌>>◌,
}
use co_bridge.Server.Types.{ChannelWithoutId}
use co_bridge.Server.Environment.{Environment}
use co_bridge.Server.Channels.{add_channels, remove_channels}
use co_bridge.Server.Parameters.{what_of}
use co_bridge.Server.Subscriptions.{is_whitelisted}
use co_bridge.MessageDefinitions.Specs.{
  MessageDefinitionFormat, idl, msg, srv_req, srv_resp, Packages,
}
use co_bridge.MessageDefinitions.FullText.{FormatAndText, Search, get_full_msg_text, is_not_found}
use co_bridge.Ros2Bridge.State.{Bridge, BridgeAction, BridgeOptions, Ros, on_server}

-- `name.front() == '_'`
abbrev pub starts_with_underscore : String → Bool
starts_with_underscore String.[] = false
starts_with_underscore (String.◌∷◌ c s) = nat_eq (code c) b'_'

unfoldable pub is_hidden_topic_or_service : String → Outcome Bool
unfolding has_part
is_hidden_topic_or_service name =
    if name == ""
    then thrown (standard (text "Topic or service name can't be empty"))
    else returned (starts_with_underscore name || has_part name "/_")

abbrev pub TopicAndDatatype : Type 0
TopicAndDatatype = String × String

abbrev pub same_pair : TopicAndDatatype → TopicAndDatatype → Bool
same_pair a b = a.0 == b.0 && a.1 == b.1

pub same_pair_iff : (a b : TopicAndDatatype) → (same_pair a b ≡ true) ↔ (a ≡ b)
same_pair_iff a b = ground (arith, ==_iff a.0 b.0, ==_iff a.1 b.1)

instance abbrev pub pair_keys : Eq TopicAndDatatype
pair_keys = record { beq = same_pair; beq_iff = same_pair_iff }

-- The loop over the datatypes of a topic.
unfoldable pub insert_datatypes :
    String → List String → List TopicAndDatatype → List TopicAndDatatype
unfolding insert
insert_datatypes topic [] latest = latest
insert_datatypes topic (d ∷ ds) latest = insert_datatypes topic ds (insert (topic, d) latest)

abbrev pub TopicNamesAndTypes : Type 0
TopicNamesAndTypes = List (String × List String)

abbrev pub topic_of : ChannelWithoutId → TopicAndDatatype
topic_of c = (c.topic, c.schema_name)

-- The loop that removes channels: the ids in order, and what is left of the two maps.
pub record Removal : Type 0 where
  pub ids : List ℕ
  pub kept : Assoc ℕ ChannelWithoutId

unfoldable pub remove_stale : List TopicAndDatatype → Assoc ℕ ChannelWithoutId → Removal
remove_stale latest [] = record { ids = []; kept = [] }
remove_stale latest ((id, channel) ∷ rest) =
    let r = remove_stale latest rest in
    if contains (topic_of channel) latest
    then record r { kept = (id, channel) ∷ r.kept }
    else record r { ids = id ∷ r.ids }

unfoldable pub erase_keys : {V : Type 0} → List ℕ → Assoc ℕ V → Assoc ℕ V
erase_keys [] m = m
erase_keys (k ∷ ks) m = erase_keys ks (erase k m)

unfoldable pub is_advertised : TopicAndDatatype → Assoc ℕ ChannelWithoutId → Bool
is_advertised t [] = false
is_advertised t ((id, channel) ∷ rest) = same_pair (topic_of channel) t || is_advertised t rest

-- A channel of a topic without a definition, and the fields that a definition sets.
abbrev pub plain_channel : TopicAndDatatype → ChannelWithoutId
plain_channel t = record {
  topic = t.0;
  encoding = "";
  schema_name = t.1;
  schema = "";
  schema_encoding = none;
}

abbrev pub schema_encoding_of : MessageDefinitionFormat → String
schema_encoding_of idl = "ros2idl"
schema_encoding_of msg = "ros2msg"
schema_encoding_of srv_req = "ros2msg"
schema_encoding_of srv_resp = "ros2msg"

abbrev pub defined_channel : TopicAndDatatype → FormatAndText → ChannelWithoutId
defined_channel t (format, schema) = record (plain_channel t) {
  encoding = "cdr";
  schema = schema;
  schema_encoding = some (schema_encoding_of format);
}

-- The two handlers: a channel with an empty schema, or none at all.
unfoldable pub undefined_channel :
    TopicAndDatatype → Exception → BridgeAction (Option ChannelWithoutId)
undefined_channel t x =
    if is_not_found x
    then pure (some (plain_channel t))
    else elim (what_of x) [ none ↦ throw x | some w ↦ pure none ]

-- The text of a search in the bridge's cache. Without fuel it ends with `unknown`, which nothing catches;
-- MessageDefinitions/Termination says which fuel is enough.
abbrev pub search_result : {A : Type 0} → Bridge → Option (Outcome A × Search) → Outcome A × Bridge
search_result b none = (thrown unknown, b)
search_result b (some (o, s)) = (o, record b { definitions = s.cache })

abbrev pub with_channel : Option ChannelWithoutId → List ChannelWithoutId → List ChannelWithoutId
with_channel none cs = cs
with_channel (some c) cs = c ∷ cs

-- The loop that stores the added channels under their ids.
unfoldable pub store_channels :
    List ℕ → List ChannelWithoutId → Assoc ℕ ChannelWithoutId → Assoc ℕ ChannelWithoutId
store_channels (id ∷ ids) (c ∷ cs) m = store_channels ids cs (emplace id c m)
store_channels [] cs m = m
store_channels (id ∷ ids) [] m = m

module _ (env : Environment) (ros : Ros) (options : BridgeOptions) (packages : Packages)
    (fuel : ℕ) where
  unfoldable pub latest_topics :
      TopicNamesAndTypes → List TopicAndDatatype → Outcome (List TopicAndDatatype)
  unfolding is_hidden_topic_or_service insert_datatypes is_whitelisted
  latest_topics [] latest = returned latest
  latest_topics ((topic, datatypes) ∷ rest) latest =
      let skipped = latest_topics rest latest in
      let listed = latest_topics rest (
        if is_whitelisted env topic options.topic_whitelist_patterns
        then insert_datatypes topic datatypes latest
        else latest) in
      if options.include_hidden then listed else elim (is_hidden_topic_or_service topic) [
        | returned hidden ↦ if hidden then skipped else listed
        | thrown x ↦ thrown x
      ]

  unfoldable pub full_msg_text : String → BridgeAction FormatAndText
  unfolding get_full_msg_text
  full_msg_text datatype b =
      search_result b (get_full_msg_text packages fuel datatype b.definitions)

  unfoldable pub channel_for : TopicAndDatatype → BridgeAction (Option ChannelWithoutId)
  unfolding full_msg_text undefined_channel
  channel_for t =
      try_catch (full_msg_text t.1 >>= λ definition. pure (some (defined_channel t definition)))
        (undefined_channel t)

  -- The loop over the latest topics, beside the channels that are advertised.
  unfoldable pub channels_to_add :
      Assoc ℕ ChannelWithoutId → List TopicAndDatatype → BridgeAction (List ChannelWithoutId)
  unfolding channel_for is_advertised
  channels_to_add advertised [] = pure []
  channels_to_add advertised (t ∷ ts) =
      let others = channels_to_add advertised ts in
      if is_advertised t advertised
      then others
      else channel_for t >>= λ channel. others >>= λ cs. pure (with_channel channel cs)

  -- From the removal of stale channels on.
  unfoldable pub advertise_latest : List TopicAndDatatype → BridgeAction Unit
  unfolding remove_stale erase_keys on_server channels_to_add store_channels
  advertise_latest latest = do
    removal ← gets (λ b. remove_stale latest b.advertised_topics)
    modify (λ b. record b {
      advertised_topics = removal.kept;
      subscriptions = erase_keys removal.ids b.subscriptions;
    })
    on_server (remove_channels env removal.ids)
    added ← channels_to_add removal.kept latest
    ids ← on_server (add_channels env added)
    modify (λ b. record b { advertised_topics = store_channels ids added b.advertised_topics })

  unfoldable pub update_advertised_topics : TopicNamesAndTypes → BridgeAction Unit
  unfolding latest_topics advertise_latest
  update_advertised_topics topic_names_and_types = do
    running ← gets (λ b. ros.running b.ros_calls)
    if not running
        then pure tt
        else lift (latest_topics topic_names_and_types []) >>= advertise_latest
