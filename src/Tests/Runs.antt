-- ===== src/Tests/Runs.antt =====
-- The server at concrete states and through a concrete run.
use co_bridge.Base.{
  ℕ, ◌+◌, ◌≡◌, refl, List, [], ◌∷◌, ◌++◌, map, true, false, some, nat_keys, text_keys, length,
  arith, ◌==◌,
}
use co_bridge.Base.Int.{pos, int, HasAtLeast}
use co_bridge.Base.Assoc.{find, has_key, count_if}
use co_bridge.Base.Action.{returned}
use co_bridge.Server.Types.{Event, ClientInfo}
use co_bridge.Server.Channels.{add_channels, channel_id}
use co_bridge.Server.Channels.Registration.{numbered, entry, add_channels-registers}
use co_bridge.Server.Sessions.{new_client, login, handle_connection_closed}
use co_bridge.Server.Sessions.Closing.{closed, handle_connection_closed_completes}
use co_bridge.Server.Sessions.Login.{AllOut}
use co_bridge.Server.Sessions.Entering.{login-enters, login-again}
use co_bridge.Server.Dispatch.{text_message}
use co_bridge.Server.Requests.{Request, message, add_channels as add_channels_request, run}
use co_bridge.Server.Invariant.AtMostOneLogin.{AtMostOneLogin, run-AtMostOneLogin}
use co_bridge.Server.Invariant.MarkedClients.{Surplus, run-Surplus}
use co_bridge.Server.Invariant.KnownSubscriptions.{KnownSubscriptions, run-KnownSubscriptions}
use co_bridge.Tests.{env, json, start, chatter, ann, with_ann}

-- A login, a channel, a subscription to it and one to the graph.
abbrev requests : List Request
requests =
    message 4 (text_message "login")
    ∷ add_channels_request (chatter ∷ [])
    ∷ message 4 (text_message "subscribe")
    ∷ message 4 (text_message "graph")
    ∷ []

start_nobody : AtMostOneLogin start
unfolding count_if
start_nobody = omega arith

run-AtMostOneLogin_example : AtMostOneLogin (run env json requests start)
run-AtMostOneLogin_example = run-AtMostOneLogin env json requests start start_nobody

run-KnownSubscriptions_example : KnownSubscriptions (run env json requests start)
run-KnownSubscriptions_example = run-KnownSubscriptions env json requests start tt

start_counted :
    HasAtLeast (count_if (λ c. c.subscribed_to_connection_graph) start.clients + 0) (int (pos 0))
unfolding count_if
start_counted = omega arith

run-Surplus_example : Surplus 0 (run env json requests start)
run-Surplus_example =
    run-Surplus 0 env json requests start (record { distinct = tt; counted = start_counted })

ann_known : find 4 with_ann.clients ≡ some ann
unfolding find
ann_known = refl

handle_connection_closed_completes_example :
    (t : List Event) × (handle_connection_closed env 4 with_ann
      ≡ (returned tt, record (closed 4 ann with_ann) { trace = t }))
handle_connection_closed_completes_example =
    handle_connection_closed_completes env 4 with_ann ann ann_known

bob_unknown : has_key 5 with_ann.clients ≡ false
unfolding has_key
bob_unknown = refl

login-enters_example :
    ((login env "bob" "u2" 5 with_ann).0 ≡ returned tt)
    × (find 5 (login env "bob" "u2" 5 with_ann).1.clients
        ≡ some (new_client "10.0.0.2:5000" "bob" "u2" 5))
    × ((k : ℕ) (c : ClientInfo)
        → k == 5 ≡ false
        → find k (login env "bob" "u2" 5 with_ann).1.clients ≡ some c
        → c.login ≡ false)
login-enters_example = login-enters env (λ t h. refl) "bob" "u2" 5 with_ann bob_unknown

ann_there : has_key 4 with_ann.clients ≡ true
unfolding has_key
ann_there = refl

login-again_example :
    ((login env "ann" "u1" 4 with_ann).0 ≡ returned tt)
    × AllOut (login env "ann" "u1" 4 with_ann).1.clients
login-again_example = login-again env (λ t h. refl) "ann" "u1" 4 with_ann ann_there

add_channels-registers_example :
    (t : List Event) × (add_channels env (chatter ∷ []) start ≡ (
      returned (map channel_id (numbered 0 (chatter ∷ []))),
      record start {
        next_channel_id = 0 + length (chatter ∷ []);
        channels = [] ++ map entry (numbered 0 (chatter ∷ []));
        trace = t;
      },
    ))
add_channels-registers_example = add_channels-registers env (chatter ∷ []) start (omega arith) tt
