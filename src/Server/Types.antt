-- ===== src/Server/Types.antt =====
-- The data of the server: common.hpp, server_interface.hpp and the members of `Server`.
-- A connection handle is a number, since handles are only compared.
use co_bridge.Base.{ℕ, String, List, [], Bool, Option}
use co_bridge.Base.Int.{Count, int, pos}
use co_bridge.Base.Assoc.{Assoc}
use co_bridge.Base.Errors.{What}
use co_bridge.Base.Action.{Action}
use co_bridge.Wire.{ServiceResponse}
use co_bridge.Parameter.{Parameter}

pub record ChannelWithoutId : Type 0 where
  pub topic : String
  pub encoding : String
  pub schema_name : String
  pub schema : String
  pub schema_encoding : Option String

pub record Channel : Type 0 where
  pub id : ℕ
  pub without_id : ChannelWithoutId

pub record ClientAdvertisement : Type 0 where
  pub channel_id : ℕ
  pub topic : String
  pub encoding : String
  pub schema_name : String
  pub schema : List ℕ

pub record ClientMessage : Type 0 where
  pub log_time : ℕ
  pub publish_time : ℕ
  pub sequence : ℕ
  pub advertisement : ClientAdvertisement
  pub data_length : ℕ
  pub bytes : List ℕ

pub record ServiceWithoutId : Type 0 where
  pub name : String
  pub service_type : String
  pub request_schema : String
  pub response_schema : String

pub record Service : Type 0 where
  pub id : ℕ
  pub without_id : ServiceWithoutId

pub data FetchAssetStatus : Type 0 where
  success error : FetchAssetStatus

pub record FetchAssetResponse : Type 0 where
  pub request_id : ℕ
  pub status : FetchAssetStatus
  pub error_message : List ℕ
  pub bytes : List ℕ

abbrev pub MapOfSets : Type 0
MapOfSets = Assoc String (List String)

-- The options that the modelled functions read. A `std::regex` is its pattern.
pub record ServerOptions : Type 0 where
  pub capabilities : List String
  pub supported_encodings : List String
  pub metadata : Assoc String String
  pub session_id : String
  pub client_topic_whitelist_patterns : List String
  pub mac_addr : String
  pub ip_addrs : List String

pub data ParameterSubscriptionOperation : Type 0 where
  subscribe unsubscribe : ParameterSubscriptionOperation

-- The members of `ServerHandlers`.
pub data Handler : Type 0 where
  subscribe_handler unsubscribe_handler client_advertise_handler : Handler
  client_unadvertise_handler client_message_handler parameter_request_handler : Handler
  parameter_change_handler parameter_subscription_handler service_request_handler : Handler
  subscribe_connection_graph_handler fetch_asset_handler : Handler

-- A call of a handler with its arguments; the last number is the client's handle.
pub data HandlerCall : Type 0 where
  on_subscribe on_unsubscribe on_client_unadvertise : ℕ → ℕ → HandlerCall
  on_client_advertise : ClientAdvertisement → ℕ → HandlerCall
  on_client_message : ClientMessage → ℕ → HandlerCall
  on_parameter_request : List String → Option String → ℕ → HandlerCall
  on_parameter_change : List Parameter → Option String → ℕ → HandlerCall
  on_parameter_subscription : List String → ParameterSubscriptionOperation → ℕ → HandlerCall
  on_service_request : ServiceResponse → ℕ → HandlerCall
  on_subscribe_connection_graph : Bool → HandlerCall
  on_fetch_asset : String → ℕ → ℕ → HandlerCall

pub data StatusLevel : Type 0 where
  info warning error : StatusLevel

-- The text of a status message: a constructor for each text of the source, with what is put in.
pub data StatusText : Type 0 where
  unsubscribe_failed handler_failed empty_binary_message no_advertised_channels : StatusText
  not_subscribed_to_graph call_failed : StatusText
  subscription_id_used channel_not_available subscription_id_unknown : ℕ → StatusText
  channel_already_advertised invalid_message_length channel_not_advertised : ℕ → StatusText
  invalid_service_request_length service_not_advertised unrecognized_binary_opcode : ℕ → StatusText
  not_whitelisted : ℕ → String → StatusText
  capability_missing : String → String → StatusText
  binary_capability_missing : ℕ → String → StatusText
  handler_missing unrecognized_opcode operation_failed : String → StatusText
  what_text : What → StatusText
  operation_error : What → String → StatusText
  operation_error_with_id : What → String → ℕ → StatusText

pub record GraphUpdate : Type 0 where
  pub published_topics : MapOfSets
  pub subscribed_topics : MapOfSets
  pub advertised_services : MapOfSets
  pub removed_topics : List String
  pub removed_services : List String

-- What the server sends: a JSON text, by its "op" and the values put into it, or a binary frame.
pub data Outgoing : Type 0 where
  status : StatusLevel → StatusText → Outgoing
  -- userId, username
  kicked : String → String → Outgoing
  -- name, capabilities, supportedEncodings, metadata, sessionId
  server_info : String → List String → List String → Assoc String String → String → Outgoing
  -- userId, username, macAddr, lanCandidates, linkType
  login_request : String → String → String → List String → String → Outgoing
  advertise : List Channel → Outgoing
  unadvertise unadvertise_services : List ℕ → Outgoing
  advertise_services : List Service → Outgoing
  parameter_values : List Parameter → Option String → Outgoing
  graph_update : GraphUpdate → Outgoing
  binary : List ℕ → Outgoing

pub data Event : Type 0 where
  sent : ℕ → Outgoing → Event
  called : HandlerCall → Event

pub record ClientInfo : Type 0 where
  pub endpoint_name : String
  pub user_name : String
  pub user_id : String
  pub handle : ℕ
  pub subscriptions_by_channel : Assoc ℕ ℕ
  pub advertised_channels : List ℕ
  pub subscribed_to_connection_graph : Bool
  pub login : Bool

pub record ConnectionGraph : Type 0 where
  pub subscription_count : Count
  pub published_topics : MapOfSets
  pub subscribed_topics : MapOfSets
  pub advertised_services : MapOfSets

-- `handlers h` tells whether the handler is set. `trace` holds what was sent and called, the latest
-- first.
pub record Server : Type 0 where
  pub name : String
  pub options : ServerOptions
  pub next_channel_id : ℕ
  pub clients : Assoc ℕ ClientInfo
  pub channels : Assoc ℕ Channel
  pub client_channels : Assoc ℕ (Assoc ℕ ClientAdvertisement)
  pub client_param_subscriptions : Assoc ℕ (List String)
  pub next_service_id : ℕ
  pub services : Assoc ℕ ServiceWithoutId
  pub handlers : Handler → Bool
  pub connection_graph : ConnectionGraph
  pub trace : List Event

abbrev pub ServerAction : Type 0 → Type 0
ServerAction = Action Server

-- The start of a server: no client, no channel, both counters at 0.
abbrev pub initial : String → ServerOptions → (Handler → Bool) → Server
initial name options handlers = record {
  name = name;
  options = options;
  next_channel_id = 0;
  clients = [];
  channels = [];
  client_channels = [];
  client_param_subscriptions = [];
  next_service_id = 0;
  services = [];
  handlers = handlers;
  connection_graph = record {
    subscription_count = int (pos 0);
    published_topics = [];
    subscribed_topics = [];
    advertised_services = [];
  };
  trace = [];
}
