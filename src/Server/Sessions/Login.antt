-- ===== src/Server/Sessions/Login.antt =====
-- `handle_login`: whoever was logged in is kicked before the new client is entered.
use co_bridge.Base.{
  ℕ, String, List, [], ◌∷◌, true, false, ◌≡◌, refl, arith, Bool-cases, inl, inr, ◌⊎◌, nat_keys,
  text_keys, ◌==◌, ==_refl,
}
use co_bridge.Base.Assoc.{Assoc, has_key, emplace, update, Each}
use co_bridge.Base.Errors.{standard, bad_connection}
use co_bridge.Base.Action.{Outcome, returned, thrown, modify, ◌>>=◌, ◌>>◌, for_each, continue}
use co_bridge.Base.Action.Keeps.{Keeps, keeps_rules}
use co_bridge.Server.Types
use co_bridge.Server.Types.{Server, Event, ClientInfo}
use co_bridge.Server.Environment.{Environment, connection_send}
use co_bridge.Server.Sessions.{kick, log_out, login, new_client, welcome}
use co_bridge.Server.Invariant.Sends.{Untraced, sends_rules}

abbrev pub IsOut : ℕ → ClientInfo → Type 0
IsOut k c = c.login ≡ false

abbrev pub AllOut : Assoc ℕ ClientInfo → Type 0
AllOut m = Each IsOut m

-- Every client is logged out or stands in the list that is still to be kicked.
abbrev pub OutOrIn : Assoc ℕ ClientInfo → Assoc ℕ ClientInfo → Type 0
OutOrIn l m = Each (λ k c. (has_key k l ≡ true) ⊎ (c.login ≡ false)) m

pub OutOrIn-refl :
    (m n : Assoc ℕ ClientInfo) → ((k : ℕ) → has_key k m ≡ true → has_key k n ≡ true) → OutOrIn n m
unfolding has_key
OutOrIn-refl [] n h = tt
OutOrIn-refl ((j, c) ∷ m) n h =
    (inl (h j (rw (==_refl j))), OutOrIn-refl m n (λ k e. h k (ground arith)))

pub OutOrIn-nil : (m : Assoc ℕ ClientInfo) → OutOrIn [] m → AllOut m
unfolding has_key
OutOrIn-nil [] h = tt
OutOrIn-nil ((j, c) ∷ m) h = (ground arith, OutOrIn-nil m h.1)

pub OutOrIn-update :
    (e : ℕ × ClientInfo) (l m : Assoc ℕ ClientInfo)
    → OutOrIn (e ∷ l) m
    → OutOrIn l (update e.0 log_out m)
unfolding has_key update
OutOrIn-update e l [] h = tt
OutOrIn-update e l ((j, c) ∷ m) h = elim (Bool-cases (e.0 == j)) [
  | inl this ↦ rw this (inr refl, OutOrIn-update e l m h.1)
  | inr other ↦ rw other (ground arith, OutOrIn-update e l m h.1)
]

abbrev kicked_state : ℕ → List Event → Server → Server
kicked_state k t s = record s { clients = update k log_out s.clients; trace = t }

module _ (env : Environment) (user_id user_name : String) where
  kick_cases :
      (e : ℕ × ClientInfo) (s : Server)
      → (kick env user_id user_name e s ≡ (thrown (standard bad_connection), s))
        ⊎ ((t : List Event) × (kick env user_id user_name e s
              ≡ (returned tt, kicked_state e.0 t s)))
  unfolding kick connection_send ◌>>=◌
  kick_cases e s = elim (Bool-cases (env.connected s.trace e.0)) [
    | inl there ↦ inr (Types.sent e.0 (Types.kicked user_id user_name) ∷ s.trace, rw there)
    | inr gone ↦ inl (rw gone)
  ]

  module _ {P : Server → Type 0} (u : Untraced P)
      (kicks : (k : ℕ) (s : Server)
        → P s
        → P (record s { clients = update k log_out s.clients })) where
    -- How the loop ends: by an exception with `P`, or with `P` and nobody logged in.
    abbrev Ends : Outcome Unit × Server → Type 0
    Ends (returned a, s) = P s × AllOut s.clients
    Ends (thrown x, s) = P s

    kick_all-Ends :
        (l : Assoc ℕ ClientInfo) (s : Server)
        → P s
        → OutOrIn l s.clients
        → Ends (for_each l (kick env user_id user_name) s)
    unfolding for_each ◌>>=◌
    kick_all-Ends [] s p h = (p, OutOrIn-nil s.clients h)
    kick_all-Ends (e ∷ l) s p h = elim (kick_cases e s) [
      | inl gone ↦ rw gone p
      | inr (t, there) ↦ rw there (
          kick_all-Ends l (kicked_state e.0 t s) (u _ t (kicks e.0 s p))
            (OutOrIn-update e l s.clients h))
    ]

    Keeps-welcome : (hdl : ℕ) → Keeps P (welcome env hdl)
    unfolding welcome
    Keeps-welcome hdl = search (keeps_rules, sends_rules, u) depth 14

    module _
        (enter : (endpoint : String) (hdl : ℕ) (s : Server)
          → P s
          → AllOut s.clients
          → P (record s {
            clients = emplace hdl (new_client endpoint user_name user_id hdl) s.clients;
          })) where
      -- A predicate that survives a kick, and the entry of a client while nobody is logged in,
      -- survives a login, however it ends.
      pub Keeps-login : (hdl : ℕ) → Keeps P (login env user_name user_id hdl)
      unfolding login ◌>>=◌
      Keeps-login hdl = record {
        at = λ s p.
            go (env.endpoint s.trace hdl) (for_each s.clients (kick env user_id user_name) s)
              (kick_all-Ends s.clients s p (OutOrIn-refl s.clients s.clients (λ k e. e)));
      }
        where
          go :
              (endpoint : String) (r : Outcome Unit × Server)
              → Ends r
              → P
                  (continue r.0
                    (λ _.
                      modify (λ s. record s {
                        clients = emplace hdl (new_client endpoint user_name user_id hdl) s.clients;
                      })
                      >> welcome env hdl)
                    r.1).1
          go endpoint (returned a, s) h = (Keeps-welcome hdl).at _ (enter endpoint hdl s h.0 h.1)
          go endpoint (thrown x, s) h = h
