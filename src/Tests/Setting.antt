-- ===== src/Tests/Setting.antt =====
-- A concrete setting: JSON values with what the server reads of them, a bridge whose handlers
-- return, connections that are up, and a few requests.
use co_bridge.Base.{
  ℕ, String, List, [], ◌∷◌, Bool, true, Option, none, some, if◌then◌else◌, ◌==◌, text_keys,
}
use co_bridge.Base.Int.{int, pos}
use co_bridge.Base.Errors.{standard, text}
use co_bridge.Base.Action.{Outcome, returned, thrown}
use co_bridge.Server.Types.{Server, ServerOptions, ClientInfo, Handler, ChannelWithoutId, initial}
use co_bridge.Server.Environment.{Environment, JsonLibrary}

-- An object is a chain of fields and an array a chain of items.
pub data Value : Type 0 where
  word : String → Value
  number : ℕ → Value
  field : String → Value → Value → Value
  item : Value → Value → Value
  end : Value

abbrev member : Value → String → Option Value
member (word w) key = none
member (number n) key = none
member (field k v rest) key = if k == key then some v else member rest key
member (item v rest) key = none
member end key = none

abbrev items : Value → List Value
items (word w) = []
items (number n) = []
items (field k v rest) = v ∷ items rest
items (item v rest) = v ∷ items rest
items end = []

abbrev word_of : Value → Outcome String
word_of (word w) = returned w
word_of (number n) = thrown (standard (text "type must be string"))
word_of (field k v rest) = thrown (standard (text "type must be string"))
word_of (item v rest) = thrown (standard (text "type must be string"))
word_of end = thrown (standard (text "type must be string"))

abbrev number_of : Value → Outcome ℕ
number_of (word w) = thrown (standard (text "type must be number"))
number_of (number n) = returned n
number_of (field k v rest) = thrown (standard (text "type must be number"))
number_of (item v rest) = thrown (standard (text "type must be number"))
number_of end = thrown (standard (text "type must be number"))

abbrev words : Value → List String
words (word w) = []
words (number n) = []
words (field k v rest) = []
words (item (word w) rest) = w ∷ words rest
words (item (number n) rest) = words rest
words (item (field k v r) rest) = words rest
words (item (item v r) rest) = words rest
words (item end rest) = words rest
words end = []

-- The texts that clients send here.
abbrev parsed : String → Outcome Value
parsed t =
    if t == "login"
    then returned
        (field "op" (word "login") (field "username" (word "ann") (field "userId" (word "u1") end)))
    else if t == "subscribe"
    then returned (
        field "op" (word "subscribe") (
          field "subscriptions"
            (item (field "id" (number 7) (field "channelId" (number 1) end)) end) end))
    else if t == "graph"
    then returned (field "op" (word "subscribeConnectionGraph") end)
    else if t == "advertise"
    then returned (field "op" (word "advertise") end)
    else if t == "dance"
    then returned (field "op" (word "dance") end)
    else thrown (standard (text "parse error"))

abbrev pub json : JsonLibrary
json = record {
  Json = Value;
  parse = parsed;
  at = λ v key. elim (member v key) [
    | none ↦ thrown (standard (text "key not found"))
    | some w ↦ returned w
  ];
  find_member = member;
  get_string = word_of;
  get_uint32 = number_of;
  get_strings = λ v. returned (words v);
  get_parameters = λ v. returned [];
  elements = items;
}

abbrev pub env : Environment
env = record {
  connected = λ t h. true;
  endpoint = λ t h. "10.0.0.2:5000";
  answer = λ t c. none;
  regex_match = λ n p. true;
  now = λ t. 0;
  requested_subprotocols = λ h. "coBridge.websocket.v1" ∷ [];
}

abbrev pub options : ServerOptions
options = record {
  capabilities = "connectionGraph" ∷ [];
  supported_encodings = "cdr" ∷ [];
  metadata = [];
  session_id = "s1";
  client_topic_whitelist_patterns = ".*" ∷ [];
  mac_addr = "";
  ip_addrs = [];
}

abbrev pub all_handlers : Handler → Bool
all_handlers h = true

abbrev pub start : Server
start = initial "bridge" options all_handlers

abbrev pub chatter : ChannelWithoutId
chatter = record {
  topic = "/chatter";
  encoding = "cdr";
  schema_name = "std_msgs/String";
  schema = "string data";
  schema_encoding = none;
}

-- A client with a subscription and an advertised channel.
abbrev pub ann : ClientInfo
ann = record {
  endpoint_name = "10.0.0.2:5000";
  user_name = "ann";
  user_id = "u1";
  handle = 4;
  subscriptions_by_channel = (1, 7) ∷ [];
  advertised_channels = 9 ∷ [];
  subscribed_to_connection_graph = true;
  login = true;
}

abbrev pub with_ann : Server
with_ann = record start {
  clients = (4, ann) ∷ [];
  client_param_subscriptions = (4, "speed" ∷ []) ∷ [];
  connection_graph = record start.connection_graph { subscription_count = int (pos 1) };
}
