-- ===== src/Lib.antt =====
-- coBridge
--
-- coBridge connects robots to a web client: a bridge node of ROS 1 or ROS 2 hands channels, services,
-- parameters and a connection graph to a WebSocket server (cobridge_base), which serves the clients
-- and calls the bridge's handlers. This library models cobridge_base and both bridges.
--
-- The parts, and the files that model them:
-- Wire: cobridge_base/src/serialization.cpp and include/serialization.hpp, the binary service
--   messages and the little-endian integers. Texts and buffers are lists of bytes.
-- Base64: cobridge_base/src/base64.cpp. The two nested loops of the decoder are one loop with the
--   position in the group as an argument.
-- Parameter: cobridge_base/include/parameter.hpp and src/parameter.cpp.
-- Server: cobridge_base/include/websocket_server.hpp, with the data of include/common.hpp and
--   include/server_interface.hpp in Server/Types. A member function is a function of the same name
--   into a state monad with exceptions (Base/Action); a range-for loop over a container is `for_each`
--   over a copy taken before it; `try` and `catch` is `try_catch`.
--   - Channels: add_channels, remove_channels, add_services, remove_services
--   - Sessions: validate_connection, handle_login, handle_connection_opened, handle_connection_closed
--   - Subscriptions: handle_subscribe, handle_unsubscribe, handle_advertise, handle_unadvertise,
--     handle_fetch_asset
--   - Parameters: publish_parameter_values, update_parameter_values and the parameter messages
--   - Graph: update_connection_graph and the messages that subscribe to it
--   - Frames: send_message, broadcast_time, send_service_response, send_fetch_asset_response
--   - Dispatch: handle_message, handle_text_message, handle_binary_message, string_hash
--   - Requests: all that the server is asked to do, and runs of such requests
--   - Invariant: what every request keeps. An invariant gives one field for each write to the state
--     (Invariant/Writes), and Invariant/Survival, Invariant/Steps and Invariant/Messages carry it
--     to whole runs.
-- CallbackQueue: cobridge_base/include/callback_queue.hpp with one worker thread, as both of its users
--   make it. A run is a list of events, each one step of a thread: the worker (do_work), a caller of
--   add_callback or one of stop; the mutex is held between the steps that the worker's place says.
-- MessageDefinitions: ros2_bridge/src/message_definition_cache.cpp.
--   - Sections: split_string, split_service_definition, split_action_msg_definition
--   - Specs: parse_dependencies, delimiter and the constructor of MessageSpec
--   - Cache: load_service_spec, load_message_spec
--   - FullText: get_full_msg_text, get_full_srv_text. The lambda append_recursive takes fuel for its
--     depth. A nested call is made only for an identifier that was not seen, so one more than the
--     number of names that the files mention is enough (Termination). Parts, Collected, Closure: what
--     the returned text consists of.
-- Ros2Bridge: ros2_bridge/src/ros2_bridge.cpp. `Bridge` has the members of CoBridge, the server and
--   the cache of definitions among them; `on_server` calls a member function of the server's model.
--   - Qos: the quality of service that subscribe asks for; Subscriptions: subscribe, unsubscribe
--   - Publications: client_advertise, client_unadvertise, client_message
--   - Topics: update_advertised_topics; Services: update_advertised_services, service_request
--   - Handlers: fetch_asset, the parameter handlers, update_connection_graph, ros_message_handler, the clock
--   - Polling: the start and one round of rosgraph_poll_thread
--   - Run: all that happens to the bridge and its server, one event after the other
--   - Policies, Invariant, Stale, Latest, Advertised, RoundTrip, Assets: what is proved of single operations
--   - Offered, Agreement: the channels of the server against those that the bridge advertises. Host is
--     what of a bridge this needs: a state that holds a server and a map of channels; both bridges fill it.
--   - Quiet, Handling, Coherence, Together: invariants through runs; Quiet names the writes that an invariant ignores
-- Ros1Bridge: ros1_bridge/src/ros1_bridge_nodelet.cpp and param_utils.cpp. `Nodelet` has the members of the
--   class, and `Master` is what ROS and its master answer. What the loops over channels and services share
--   with those of the ROS 2 bridge is taken from there.
--   - Conversion: XmlRpcValue, from_ros_param, to_ros_param; State: members and calls of the master
--   - Parameters: get_parameters, set_parameters, subscribe_parameters, parameter_updates
--   - Subscriptions, Publications, Assets: the handlers of the same names as in Ros2Bridge
--   - Topics: update_advertised_topics; Services: update_advertised_services, service_request
--   - Updates: update_advertised_topics_and_services and the time of the next update
--   - RoundTrip, Allowlist, Setting, Sets, Current, Requests, Backoff, Agreement: what is proved of them
-- Json: cobridge_base/src/serialization.cpp, the JSON of channels and services, and in Json/Parameters that of
--   parameters. Json/Ascii has the texts of base64, Json/Doubles the cast of an integer to a double.
-- ParameterInterface: ros2_bridge/src/parameter_interface.cpp, which the handlers of the bridge call for
--   parameters. `Interface` has the members of the class; the other nodes are the parameter `Nodes`. A task
--   of std::async runs to its end where it is launched.
--   - Names, Conversion: full names, and the two kinds of parameters; State: members and calls of rclcpp
--   - Setting: set_params; Getting: get_params; Watching: subscribe_params, unsubscribe_params, the events
--   - Allowed, Watched, Subscribing, Lasting, Later, Missed, Reports: what is proved of them
-- HttpServer: http_server/src/http_server.cpp, what run_server answers to the text of a request.
-- Base: shared types, lists, maps, integers, bit masks and the monad. Tests: concrete inputs.
--
-- How the state corresponds: `Server` has a field for each member of the class that the functions
-- read, and `trace`, all that was sent and called, the latest first. A connection handle is a number.
-- A std::map and a std::unordered_map are association lists, whose order stands for the container's
-- order of iteration. A std::string that is only compared and sent is a String; a JSON message that
-- the server sends is a constructor of `Outgoing` with the values put into it. 32-bit counters and
-- hashes wrap at 2 ^ 32. The int that counts graph subscriptions (`Count`) has a value of its own for an overflow,
-- which C++ leaves undefined; what the model does with that says nothing of the program. Apart from append_recursive no function of the model needs fuel.
--
-- Parameters of the model: the connections (whether a handle's connection is up, its endpoint), the
-- exceptions that handlers throw, std::regex_match and the clock (`Environment`), whose answers may
-- depend on the trace; nlohmann::json (`JsonLibrary` for the messages that the server reads, with the
-- conversion of parameters there, and `JsonValues` for the conversions of channels and services); the package index, the files and the matches of the definition cache's regular expressions (`Packages`); and the
-- calls of ROS (`Ros`, and `Master` for ROS 1), which give exceptions and information on the graph, by what
-- was called before.
--
-- Not modelled: threads and locks outside the callback queue (the server handles its requests one at a
-- time, by the queue; the bridge's functions hold a mutex each), calls of the server that a handler makes
-- while it runs, logging, the reliability and compression flags of a send, start and stop, TLS,
-- the rest of the constructor and the waiting of the polling thread of the ROS 2 bridge, the rest of onInit of
-- the ROS 1 bridge and the probe of a service's type, the sockets of the HTTP server and the addresses that it finds out.
pub mod Base
pub mod Base64
pub mod Wire
pub mod Parameter
pub mod Json
pub mod CallbackQueue
pub mod MessageDefinitions
pub mod Server
pub mod Ros2Bridge
pub mod Ros1Bridge
pub mod ParameterInterface
pub mod HttpServer
pub mod Tests
