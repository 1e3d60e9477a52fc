-- ===== src/ParameterInterface/Watching.antt =====
-- subscribe_params, unsubscribe_params and what happens at a parameter event.
use co_bridge.Base.{
  String, List, [], ◌∷◌, Bool, not, ◌&&◌, Option, none, some, text_keys, is_empty, contains, insert,
  remove, if◌then◌else◌,
}
use co_bridge.Base.Assoc.{find, has_key, emplace, erase, update}
use co_bridge.Base.Action.{pure, gets, modify, for_each, ◌>>=◌, ◌>>◌}
use co_bridge.Parameter.{Parameter}
use co_bridge.Server.Environment.{Environment}
use co_bridge.Server.Subscriptions.{is_whitelisted}
use co_bridge.ParameterInterface.Names.{get_node_and_param_name, prepend_node_name_to_param_name}
use co_bridge.ParameterInterface.Conversion.{RosParameter, from_ros_param}
use co_bridge.ParameterInterface.State.{
  Interface, InterfaceAction, Nodes, Ending, finished, undefined, on_parameter_event, param_update,
  call, client_for,
}

-- `_subscribed_params_by_node.try_emplace(node_name)` and `insert(paramN)`
unfoldable pub mark : String × String → Interface → Interface
mark (node_name, param) s = record s {
  subscribed_params_by_node =
      update node_name (insert param) (emplace node_name [] s.subscribed_params_by_node);
}

module _ (env : Environment) (nodes : Nodes) (patterns : List String) where
  -- The first loop: `none` is the return at a name that is not allowed, and `nodes_to_subscribe` is what the
  -- loop has collected.
  unfoldable pub mark_params : List String → List String → InterfaceAction (Option (List String))
  unfolding get_node_and_param_name mark is_whitelisted
  mark_params [] nodes_to_subscribe = pure (some nodes_to_subscribe)
  mark_params (name ∷ names) nodes_to_subscribe =
      if not (is_whitelisted env name patterns)
      then pure none
      else (gets (λ s. has_key (get_node_and_param_name name).0 s.subscribed_params_by_node)
          >>= λ known. modify (mark (get_node_and_param_name name)) >>= λ _. mark_params names (
              if known
              then nodes_to_subscribe
              else insert (get_node_and_param_name name).0 nodes_to_subscribe))

  -- The body of the second loop.
  unfoldable pub watch_node : String → InterfaceAction Unit
  unfolding client_for call
  watch_node node_name =
      client_for nodes node_name
      >> call nodes (on_parameter_event node_name)
      >> modify (λ s. record s {
        param_subscriptions_by_node = emplace node_name tt s.param_subscriptions_by_node;
      })

  abbrev pub watch_marked : Option (List String) → InterfaceAction Unit
  watch_marked none = pure tt
  watch_marked (some nodes_to_subscribe) = for_each nodes_to_subscribe watch_node

  unfoldable pub subscribe_params : List String → InterfaceAction Unit
  unfolding mark_params watch_node
  subscribe_params names = mark_params names [] >>= watch_marked

-- What is left of a node's names is written back. The node goes with the last name, and its subscription
-- with it: without one, `erase(end())` is not defined.
unfoldable pub write_names : String → List String → InterfaceAction Ending
write_names node_name names =
    if is_empty names
    then (modify (λ s. record s {
      subscribed_params_by_node = erase node_name s.subscribed_params_by_node;
    })
        >> gets (λ s. has_key node_name s.param_subscriptions_by_node)
        >>= λ watched.
            if watched
            then (modify (λ s. record s {
              param_subscriptions_by_node = erase node_name s.param_subscriptions_by_node;
            })
                >> pure finished)
            else pure undefined)
    else (modify (λ s. record s {
      subscribed_params_by_node = update node_name (λ old. names) s.subscribed_params_by_node;
    })
        >> pure finished)

-- `erase(find(paramN))`, which is not defined for a name that is not in the set.
unfoldable pub unmark : String → String → Option (List String) → InterfaceAction Ending
unfolding write_names
unmark node_name param none = pure finished
unmark node_name param (some names) =
    if contains param names then write_names node_name (remove param names) else pure undefined

unfoldable pub unsubscribe_param : String → InterfaceAction Ending
unfolding unmark get_node_and_param_name
unsubscribe_param name =
    gets (λ s. find (get_node_and_param_name name).0 s.subscribed_params_by_node)
    >>= unmark (get_node_and_param_name name).0 (get_node_and_param_name name).1

unfoldable pub unsubscribe_params : List String → InterfaceAction Ending
unfolding unsubscribe_param
unsubscribe_params [] = pure finished
unsubscribe_params (name ∷ names) = unsubscribe_param name >>= λ ending. elim ending [
  | finished ↦ unsubscribe_params names
  | undefined ↦ pure undefined
]

-- The changed parameters that are subscribed to, under their full names.
unfoldable pub subscribed_changes : String → List String → List RosParameter → List Parameter
unfolding prepend_node_name_to_param_name from_ros_param
subscribed_changes node_name names [] = []
subscribed_changes node_name names (p ∷ ps) =
    let rest = subscribed_changes node_name names ps in
    if contains p.name names
    then from_ros_param (record p { name = prepend_node_name_to_param_name p.name node_name })
      ∷ rest
    else rest

abbrev pub names_at : Option (List String) → List String
names_at none = []
names_at (some names) = names

-- The lambda that is called at an event: its `operator[]` enters a node that is not there.
unfoldable pub parameter_event : Nodes → String → List RosParameter → InterfaceAction Unit
unfolding subscribed_changes call
parameter_event nodes node_name changed = do
  modify (λ s. record s {
    subscribed_params_by_node = emplace node_name [] s.subscribed_params_by_node;
  })
  names ← gets (λ s. names_at (find node_name s.subscribed_params_by_node))
  listens ← gets (λ s. s.has_update_func)
  let result = subscribed_changes node_name names changed
  if not (is_empty result) && listens then call nodes (param_update result) else pure tt

-- set_param_update_callback
unfoldable pub set_param_update_callback : Bool → InterfaceAction Unit
set_param_update_callback given = modify (λ s. record s { has_update_func = given })
