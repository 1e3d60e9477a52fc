-- ===== src/Server/Invariant/AtMostOneLogin.antt =====
-- At most one client is logged in, through every request.
use co_bridge.Base.{
  ℕ, ◌≤◌, String, List, [], ◌∷◌, Bool, true, false, ◌≡◌, arith, nat_keys, text_keys,
}
use co_bridge.Base.Assoc.{Assoc, update, emplace, count_if}
use co_bridge.Base.Assoc.Counting.{count_if-update, count_if-erase, count_if-emplace, count_if_none}
use co_bridge.Server.Types.{Server, ClientInfo}
use co_bridge.Server.Environment.{Environment, JsonLibrary}
use co_bridge.Server.Channels
use co_bridge.Server.Graph
use co_bridge.Server.Sessions
use co_bridge.Server.Sessions.{new_client}
use co_bridge.Server.Sessions.Login.{AllOut}
use co_bridge.Server.Subscriptions
use co_bridge.Server.Requests.{Request, run}
use co_bridge.Server.Invariant.Writes.{Survives, drop_for}
use co_bridge.Server.Invariant.Survival.{Survives-Stable}
use co_bridge.Server.Channels.{drop_subscriptions}
use co_bridge.Server.Invariant.Messages.{run-keeps}

abbrev pub is_login : ClientInfo → Bool
is_login c = c.login

abbrev pub AtMostOneLogin : Server → Type 0
AtMostOneLogin s = count_if is_login s.clients ≤ 1

-- A write that logs nobody in.
written :
    (k : ℕ) (f : ClientInfo → ClientInfo) (s : Server)
    → ((c : ClientInfo) → (f c).login ≡ true → c.login ≡ true)
    → AtMostOneLogin s
    → AtMostOneLogin (record s { clients = update k f s.clients })
written k f s h p = omega (arith, count_if-update is_login k f s.clients h)

entered :
    (user_name user_id endpoint : String) (hdl : ℕ) (s : Server)
    → AtMostOneLogin s
    → AllOut s.clients
    → AtMostOneLogin
        (record s { clients = emplace hdl (new_client endpoint user_name user_id hdl) s.clients })
entered user_name user_id endpoint hdl s p out = omega (
  arith,
  count_if-emplace is_login hdl (new_client endpoint user_name user_id hdl) s.clients,
  count_if_none is_login s.clients out,
)

drop_for-login :
    (ids : List ℕ) (l m : Assoc ℕ ClientInfo)
    → count_if is_login (drop_for ids l m) ≤ count_if is_login m
unfolding drop_for drop_subscriptions
drop_for-login ids [] m = omega arith
drop_for-login ids (e ∷ l) m = omega (
  arith,
  drop_for-login ids l (update e.0 (drop_subscriptions ids) m),
  count_if-update is_login e.0 (drop_subscriptions ids) m (λ c h. h),
)

pub Survives-at_most_one : Survives Unit AtMostOneLogin
unfolding Channels.register_channel Channels.register_service
Survives-at_most_one = record {
  untraced = λ s t p. p;
  register_channel = λ may c s p. p;
  register_service = λ d s p. p;
  erase_service = λ k s p. p;
  remove_channels = λ may ids s p. omega (arith, drop_for-login ids s.clients s.clients);
  params = λ m s p. p;
  options = λ o s p. p;
  graph = λ p t d s q. q;
  counted = λ s p. p;
  marked = λ hdl s first p. written hdl (Graph.flag true) s (λ c e. e) p;
  unmarked = λ hdl c s found is_marked p. written hdl (Graph.flag false) s (λ c e. e) p;
  kicked = λ hdl s p. written hdl Sessions.log_out s (λ c e. cc) p;
  entered = entered;
  left = λ hdl c s found p. omega (arith, count_if-erase is_login hdl s.clients);
  subscribed = λ hdl channel sub s known p.
      written hdl (Subscriptions.add_subscription channel sub) s (λ c e. e) p;
  unsubscribed =
      λ hdl channel s p. written hdl (Subscriptions.drop_subscription channel) s (λ c e. e) p;
  new_publications = λ hdl s p. p;
  advertised = λ hdl a s p. written hdl (Subscriptions.add_advertised a.channel_id) s (λ c e. e) p;
  unadvertised = λ hdl id s p. written hdl (Subscriptions.drop_advertised id) s (λ c e. e) p;
}

-- However connections open and close, and whatever clients and the bridge ask for, at most one
-- client is logged in, if at most one was at the start.
pub run-AtMostOneLogin :
    (env : Environment) (json : JsonLibrary) (rs : List Request) (s : Server)
    → AtMostOneLogin s
    → AtMostOneLogin (run env json rs s)
run-AtMostOneLogin env json rs s p =
    run-keeps env json (Survives-Stable env Survives-at_most_one) rs s p
