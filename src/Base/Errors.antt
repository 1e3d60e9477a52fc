-- ===== src/Base/Errors.antt =====
-- The exceptions of the source, as far as its `catch` clauses tell them apart.
use Prim.Native.Nat.{ℕ}
use Prim.Native.String.{String}

-- What `what()` says. Where the source puts a text together from literals and numbers, the
-- constructor is the text's form and its arguments are the numbers; `text` is any other text.
pub data What : Type 0 where
  text : String → What
  -- DefinitionNotFoundError
  definition_not_found : String → What
  -- `std::map::at` of a key that is not there, and a call of an empty `std::function`
  out_of_range bad_function_call : What
  -- `get_con_from_hdl` of a handle whose connection is gone
  bad_connection : What
  -- has_handler: "Unknown operation: " and the hash
  unknown_operation : ℕ → What
  -- ServiceResponse::read: the length of the data
  response_too_short : ℕ → What
  -- the encoding's length
  encoding_too_large : ℕ → What
  -- the encoding's length and the bytes that remain
  encoding_exceeds : ℕ → ℕ → What
  -- the offset and the length of the data
  offset_exceeds : ℕ → ℕ → What
  -- The texts of the ROS bridges. The number is a channel or a service, the text an endpoint, a name or
  -- a topic, and a What what a caught exception says.
  subscribe_unknown_channel already_subscribed unsubscribe_unknown_channel : ℕ → What
  channel_not_subscribed client_not_subscribed service_missing : ℕ → What
  subscribe_failed : String → String → What → What
  already_advertised no_advertised_topics : String → ℕ → What
  topic_not_advertised : String → ℕ → ℕ → What
  publisher_failed : What → What
  service_client_failed publish_failed : String → What → What
  service_unavailable : String → What
  -- `any_cast` to another type than that of the value
  bad_any_cast : What
  -- The number of a parameter's type
  unsupported_parameter_type : ℕ → What
  -- The texts of the parameter interface, with a node's name and a number of parameters
  invalid_node_name service_not_ready no_parameter_names : String → What
  get_parameters_timed_out set_parameters_timed_out : ℕ → String → What

-- The classes derived from `ExceptionWithId<uint32_t>`.
pub data IdError : Type 0 where
  channel_error client_channel_error service_error : IdError

pub data Exception : Type 0 where
  with_id : IdError → ℕ → What → Exception
  -- any other `std::exception`
  standard : What → Exception
  -- a thrown value that is no `std::exception`
  unknown : Exception
