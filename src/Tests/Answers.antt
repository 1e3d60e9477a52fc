-- ===== src/Tests/Answers.antt =====
-- Single operations of the server at concrete states.
use co_bridge.Base.{
  ℕ, ◌+◌, ◌*◌, ◌^◌, ◌≡◌, refl, String, List, [], ◌∷◌, not, ◌||◌, true, false, some, nat_keys,
  text_keys, contains, drop, arith,
}
use co_bridge.Base.Int.{int, pos, increment}
use co_bridge.Base.Assoc.{Distinct, find, has_key}
use co_bridge.Base.Action.{returned}
use co_bridge.Wire.{read_uint32_le}
use co_bridge.Server.Types
use co_bridge.Server.Types.{Event, ConnectionGraph, MapOfSets}
use co_bridge.Server.Frames.{subscription_of, send_message, message_data}
use co_bridge.Server.Frames.Messages.{send_message-delivers}
use co_bridge.Server.Graph.{count_by, handle_subscribe_connection_graph, graph_diff}
use co_bridge.Server.Graph.Subscribers.{subscribe_later}
use co_bridge.Server.Graph.Diff.{
  applied, same_entry, graph_diff-services, graph_diff-published, graph_diff-stale,
}
use co_bridge.Server.Dispatch.{handle_text_message, capability_by_client_operation}
use co_bridge.Server.Dispatch.{handle_message, text_message}
use co_bridge.Server.Dispatch.Failures.{handle_message-returns, handle_text_message-refused}
use co_bridge.Tests.{env, json, with_ann, field, word, end}

-- A state in which client 4 subscribes to channel 1 and to one parameter.
ann_subscribes : subscription_of env 4 1 with_ann ≡ some 7
unfolding subscription_of find
ann_subscribes = refl

send_message-delivers_example :
    (frame : List ℕ) × (send_message env 4 1 1000 (5 ∷ 6 ∷ []) with_ann ≡ (
      returned tt,
      record with_ann { trace = Types.sent 4 (Types.binary frame) ∷ with_ann.trace },
    ))
    × (frame ≡ message_data ∷ drop 1 frame)
    × (read_uint32_le (drop 1 frame) ≡ 7)
    × (read_uint32_le (drop 5 frame) + read_uint32_le (drop 9 frame) * 2 ^ 32 ≡ 1000)
    × (drop 13 frame ≡ 5 ∷ 6 ∷ [])
send_message-delivers_example =
    send_message-delivers env 4 1 7 1000 (5 ∷ 6 ∷ []) with_ann ann_subscribes refl (omega arith)
      (omega arith)

subscribe_later_example :
    (t : List Event) × (handle_subscribe_connection_graph env 4 with_ann
      ≡ (returned tt, record (count_by increment with_ann) { trace = t }))
subscribe_later_example = subscribe_later env 4 with_ann refl

-- A graph whose topic "/a" has a publisher and a subscriber, and whose service "/reset" one node.
abbrev graph : ConnectionGraph
graph = record {
  subscription_count = int (pos 1);
  published_topics = ("/a", "talker" ∷ []) ∷ [];
  subscribed_topics = ("/a", "listener" ∷ []) ∷ [];
  advertised_services = ("/reset", "talker" ∷ []) ∷ [];
}

abbrev nothing : MapOfSets
nothing = []

abbrev later_services : MapOfSets
later_services = ("/reset", "talker" ∷ "driver" ∷ []) ∷ ("/stop", "driver" ∷ []) ∷ []

later-Distinct : Distinct later_services
unfolding has_key
later-Distinct = (refl, (refl, tt))

graph_diff-services_example :
    same_entry
      (applied
        (graph_diff graph [] [] later_services).advertised_services
        (graph_diff graph [] [] later_services).removed_services
        graph.advertised_services
        "/stop")
      (find "/stop" later_services)
    ≡ true
graph_diff-services_example = graph_diff-services graph [] [] later_services "/stop" later-Distinct

nobody_subscribes : (has_key "/a" nothing || not (has_key "/a" nothing)) ≡ true
unfolding has_key
nobody_subscribes = refl

graph_diff-published_example :
    same_entry
      (applied
        (graph_diff graph nothing nothing nothing).published_topics
        (graph_diff graph nothing nothing nothing).removed_topics
        graph.published_topics
        "/a")
      (find "/a" nothing)
    ≡ true
graph_diff-published_example =
    graph_diff-published graph nothing nothing nothing "/a" tt nobody_subscribes

still_subscribed : has_key "/a" graph.subscribed_topics ≡ true
unfolding has_key
still_subscribed = refl

not_published : has_key "/a" nothing ≡ false
unfolding has_key
not_published = refl

graph_diff-stale_example :
    applied
      (graph_diff graph nothing graph.subscribed_topics nothing).published_topics
      (graph_diff graph nothing graph.subscribed_topics nothing).removed_topics
      graph.published_topics
      "/a"
    ≡ find "/a" graph.published_topics
graph_diff-stale_example =
    graph_diff-stale graph nothing graph.subscribed_topics nothing "/a" not_published
      still_subscribed

handle_message-returns_example :
    (handle_message env json 4 (text_message "dance") with_ann).0 ≡ returned tt
handle_message-returns_example = handle_message-returns env json 4 (text_message "dance") with_ann

advertise_asks : find "advertise" capability_by_client_operation ≡ some "clientPublish"
unfolding find
advertise_asks = refl

publish_lacks : contains {A = String} "clientPublish" with_ann.options.capabilities ≡ false
unfolding contains
publish_lacks = refl

handle_text_message-refused_example : handle_text_message env json 4 "advertise" with_ann ≡ (
  returned tt,
  record with_ann {
    trace =
        Types.sent 4 (
          Types.status Types.StatusLevel.error
            (Types.capability_missing "advertise" "clientPublish"))
        ∷ with_ann.trace;
  },
)
handle_text_message-refused_example =
    handle_text_message-refused env json 4 "advertise" "advertise" "clientPublish"
      (field "op" (word "advertise") end) (word "advertise") with_ann refl refl refl advertise_asks
      publish_lacks
