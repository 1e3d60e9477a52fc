-- ===== src/Server/Sessions/Entering.antt =====
-- What a login leaves behind while every connection is up: for a client that was not known, and for
-- one that logs in again.
use co_bridge.Base.{
  ℕ, String, List, [], ◌∷◌, true, false, ◌≡◌, refl, ◌∙◌, map, some, nat_keys, ◌==◌, ==_refl,
}
use co_bridge.Base.Assoc.{Assoc, find, has_key, update, emplace, find-emplace, has_key-update}
use co_bridge.Base.Assoc.Entries.{Each_find}
use co_bridge.Base.Action.{returned, pure, gets, modify, for_each, ◌>>=◌}
use co_bridge.Server.Types.{Server, Event, sent, kicked, advertise, advertise_services, ClientInfo}
use co_bridge.Server.Environment.{Environment, connection_send, send_json}
use co_bridge.Server.Sessions.{
  log_out, new_client, kick, welcome, login, greeting, value_of, service_of,
}
use co_bridge.Server.Sessions.Closing.{Performs-send_json}
use co_bridge.Server.Sessions.Login.{
  IsOut, AllOut, OutOrIn, OutOrIn-refl, OutOrIn-update, OutOrIn-nil,
}

-- Each client of the list is logged out in turn.
unfoldable pub kick_for : Assoc ℕ ClientInfo → Assoc ℕ ClientInfo → Assoc ℕ ClientInfo
kick_for [] m = m
kick_for (e ∷ l) m = kick_for l (update e.0 log_out m)

kick_for-OutOrIn : (l m : Assoc ℕ ClientInfo) → OutOrIn l m → AllOut (kick_for l m)
unfolding kick_for
kick_for-OutOrIn [] m h = OutOrIn-nil m h
kick_for-OutOrIn (e ∷ l) m h = kick_for-OutOrIn l _ (OutOrIn-update e l m h)

kick_for-AllOut : (m : Assoc ℕ ClientInfo) → AllOut (kick_for m m)
kick_for-AllOut m = kick_for-OutOrIn m m (OutOrIn-refl m m (λ k e. e))

kick_for-has_key : (k : ℕ) (l m : Assoc ℕ ClientInfo) → has_key k (kick_for l m) ≡ has_key k m
unfolding kick_for
kick_for-has_key k [] m = refl
kick_for-has_key k (e ∷ l) m =
    kick_for-has_key k l (update e.0 log_out m) ∙ has_key-update k e.0 log_out m

module _ (env : Environment) (up : (t : List Event) (h : ℕ) → env.connected t h ≡ true)
    (user_name user_id : String) where
  kick_all :
      (l : Assoc ℕ ClientInfo) (s : Server)
      → (t : List Event) × (for_each l (kick env user_id user_name) s
          ≡ (returned tt, record s { clients = kick_for l s.clients; trace = t }))
  unfolding for_each ◌>>=◌ pure kick connection_send modify kick_for
  kick_all [] s = (s.trace, refl)
  kick_all (e ∷ l) s =
      let t : List Event = sent e.0 (kicked user_id user_name) ∷ s.trace in
      let (t', rest) =
        kick_all l (record s { clients = update e.0 log_out s.clients; trace = t }) in
      (t', rw (up s.trace e.0, rest) refl)

  welcome_up :
      (hdl : ℕ) (s : Server)
      → (t : List Event) × (welcome env hdl s ≡ (returned tt, record s { trace = t }))
  unfolding welcome ◌>>=◌ gets connection_send send_json
  welcome_up hdl s =
      let (t, first) =
        (Performs-send_json env hdl (advertise (map value_of s.channels))).at
          (record s { trace = sent hdl (greeting s) ∷ s.trace }) in
      let (t', second) =
        (Performs-send_json env hdl (advertise_services (map service_of s.services))).at
          (record s { trace = t }) in
      (t', rw (up s.trace hdl, first, second) refl)

  entered : ℕ → Server → Assoc ℕ ClientInfo
  entered hdl s =
      emplace hdl (new_client (env.endpoint s.trace hdl) user_name user_id hdl)
        (kick_for s.clients s.clients)

  login_up :
      (hdl : ℕ) (s : Server)
      → (t : List Event) × (login env user_name user_id hdl s
          ≡ (returned tt, record s { clients = entered hdl s; trace = t }))
  unfolding login ◌>>=◌ gets modify entered
  login_up hdl s =
      let (t, kicks) = kick_all s.clients s in
      let (t', rest) = welcome_up hdl (record s { clients = entered hdl s; trace = t }) in
      (t', rw (kicks, rest) refl)

  -- A login of a client that is not known returns; then the client is known with its names, logged
  -- in, and every other client is logged out. This holds where every connection is up.
  pub login-enters :
      (hdl : ℕ) (s : Server)
      → has_key hdl s.clients ≡ false
      → let after = login env user_name user_id hdl s in
        (after.0 ≡ returned tt)
        × (find hdl after.1.clients
            ≡ some (new_client (env.endpoint s.trace hdl) user_name user_id hdl))
        × ((k : ℕ) (c : ClientInfo)
            → k == hdl ≡ false
            → find k after.1.clients ≡ some c
            → c.login ≡ false)
  login-enters hdl s new =
      let (t, e) = login_up hdl s in
      let m : Assoc ℕ ClientInfo = kick_for s.clients s.clients in
      let absent : has_key hdl m ≡ false = kick_for-has_key hdl s.clients s.clients ∙ new in
      rw e (
        refl,
        unfold entered in rw (find-emplace hdl hdl _ m, ==_refl hdl, absent) refl,
        λ k c other found.
            Each_find IsOut k c m (kick_for-AllOut s.clients)
              (unfold entered in rw (find-emplace k hdl _ m, other) at found),
      )

  -- A login of a client that is known already returns and leaves every client logged out, that
  -- client too. This holds where every connection is up.
  pub login-again :
      (hdl : ℕ) (s : Server)
      → has_key hdl s.clients ≡ true
      → let after = login env user_name user_id hdl s in
        (after.0 ≡ returned tt) × AllOut after.1.clients
  unfolding entered emplace
  login-again hdl s known =
      let (t, e) = login_up hdl s in
      let m : Assoc ℕ ClientInfo = kick_for s.clients s.clients in
      let there : has_key hdl m ≡ true = kick_for-has_key hdl s.clients s.clients ∙ known in
      rw e (refl, rw there (kick_for-AllOut s.clients))
