-- ===== src/Server/Parameters.antt =====
-- Parameters: what the bridge publishes, `publish_parameter_values` and `update_parameter_values`,
-- and what clients subscribe to.
pub mod Subscribed
use co_bridge.Base.{
  ℕ, String, List, [], ◌∷◌, Bool, not, ◌&&◌, Option, none, some, if◌then◌else◌, is_empty, copy_if,
  any, contains, insert_all, remove, nat_keys, text_keys,
}
use co_bridge.Base.Assoc.{Assoc, find, emplace, update}
use co_bridge.Base.Errors.{What, Exception, with_id, standard, unknown}
use co_bridge.Base.Action.{pure, gets, lift, modify, ◌>>=◌, ◌>>◌, try_catch, for_each}
use co_bridge.Parameter.{Parameter, is_set}
use co_bridge.Server.Types
use co_bridge.Server.Types.{ServerAction}
use co_bridge.Server.Environment.{Environment, JsonLibrary, call_handler, send_json, send_status}

-- `is_parameter_subscribed`
unfoldable pub is_parameter_subscribed : String → Assoc ℕ (List String) → Bool
is_parameter_subscribed name subscriptions = any (λ c. contains name c.1) subscriptions

-- `_client_param_subscriptions[hdl]`, which makes an empty entry where there is none.
unfoldable pub params_of : ℕ → Assoc ℕ (List String) → List String
params_of hdl m = elim (find hdl m) [ none ↦ [] | some names ↦ names ]

unfoldable pub set_params : ℕ → List String → Assoc ℕ (List String) → Assoc ℕ (List String)
set_params hdl names m = update hdl (λ _. names) (emplace hdl [] m)

unfoldable pub remove_names : List String → List String → List String
remove_names [] s = s
remove_names (n ∷ ns) s = remove_names ns (remove n s)

-- What `e.what()` gives in a `catch (const std::exception & e)`, and `none` for `catch (...)`.
abbrev pub what_of : Exception → Option What
what_of (with_id k i w) = some w
what_of (standard w) = some w
what_of unknown = none

module _ (env : Environment) where
  unfoldable pub publish_parameter_values : ℕ → List Parameter → Option String → ServerAction Unit
  publish_parameter_values hdl parameters request_id =
      send_json env hdl (Types.parameter_values (copy_if is_set parameters) request_id)

  unfoldable pub update_parameter_values : List Parameter → ServerAction Unit
  update_parameter_values parameters = do
    subscriptions ← gets (λ s. s.client_param_subscriptions)
    for_each subscriptions λ c.
        let to_send = copy_if (λ p. contains p.name c.1) parameters in
        if is_empty to_send then pure tt else publish_parameter_values c.0 to_send none

  -- The handler call of `unsubscribe_params_without_subscriptions`, with its `catch` clauses.
  unfoldable pub notify_unsubscribed : ℕ → List String → ServerAction Unit
  notify_unsubscribed hdl names =
      try_catch (call_handler env (Types.on_parameter_subscription names Types.unsubscribe hdl))
        (λ x. elim (what_of x) [
          | some w ↦ send_status env hdl Types.StatusLevel.error (Types.what_text w)
          | none ↦ send_status env hdl Types.StatusLevel.error Types.unsubscribe_failed
        ])

  unfoldable pub unsubscribe_params_without_subscriptions : ℕ → List String → ServerAction Unit
  unsubscribe_params_without_subscriptions hdl names = do
    unused ←
        gets
          (λ s. copy_if (λ n. not (is_parameter_subscribed n s.client_param_subscriptions)) names)
    handled ← gets (λ s. s.handlers Types.parameter_subscription_handler)
    if handled && not (is_empty unused) then notify_unsubscribed hdl unused else pure tt

  -- `handle_subscribe_parameter_updates` behind the reading of its payload.
  unfoldable pub subscribe_parameters : ℕ → List String → ServerAction Unit
  subscribe_parameters hdl names = do
    unknown_names ←
        gets
          (λ s. copy_if (λ n. not (is_parameter_subscribed n s.client_param_subscriptions)) names)
    modify (λ s. record s {
      client_param_subscriptions =
          set_params hdl (insert_all names (params_of hdl s.client_param_subscriptions))
            s.client_param_subscriptions;
    })
    if is_empty unknown_names
        then pure tt
        else call_handler env (Types.on_parameter_subscription unknown_names Types.subscribe hdl)

  -- `handle_unsubscribe_parameter_updates` behind the reading of its payload.
  unfoldable pub unsubscribe_parameters : ℕ → List String → ServerAction Unit
  unsubscribe_parameters hdl names = do
    modify (λ s. record s {
      client_param_subscriptions =
          set_params hdl (remove_names names (params_of hdl s.client_param_subscriptions))
            s.client_param_subscriptions;
    })
    unsubscribe_params_without_subscriptions hdl names

module _ (env : Environment) (json : JsonLibrary) where
  open json use {Json, at, find_member, get_string, get_strings, get_parameters}

  -- `payload.find("id") == payload.end() ? nullopt : payload["id"].get<std::string>()`
  unfoldable pub request_id_of : Json → ServerAction (Option String)
  request_id_of payload = elim (find_member payload "id") [
    | none ↦ pure none
    | some j ↦ lift (get_string j) >>= λ id. pure (some id)
  ]

  unfoldable pub handle_get_parameters : Json → ℕ → ServerAction Unit
  handle_get_parameters payload hdl = do
    member ← lift (at payload "parameterNames")
    param_names ← lift (get_strings member)
    request_id ← request_id_of payload
    call_handler env (Types.on_parameter_request param_names request_id hdl)

  unfoldable pub handle_set_parameters : Json → ℕ → ServerAction Unit
  handle_set_parameters payload hdl = do
    member ← lift (at payload "parameters")
    parameters ← lift (get_parameters member)
    request_id ← request_id_of payload
    call_handler env (Types.on_parameter_change parameters request_id hdl)

  -- `get<std::unordered_set<std::string>>` drops what stands twice.
  unfoldable pub handle_subscribe_parameter_updates : Json → ℕ → ServerAction Unit
  handle_subscribe_parameter_updates payload hdl = do
    member ← lift (at payload "parameterNames")
    names ← lift (get_strings member)
    subscribe_parameters env hdl (insert_all names [])

  unfoldable pub handle_unsubscribe_parameter_updates : Json → ℕ → ServerAction Unit
  handle_unsubscribe_parameter_updates payload hdl = do
    member ← lift (at payload "parameterNames")
    names ← lift (get_strings member)
    unsubscribe_parameters env hdl (insert_all names [])
