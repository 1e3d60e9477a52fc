-- ===== src/Server/Invariant/Clients.antt =====
-- Reads and writes of one client's record, `_clients.at(hdl)`.
use co_bridge.Base.{ℕ, some, ◌≡◌, arith, ◌⊎◌, inl, inr, Option-cases, nat_keys}
use co_bridge.Base.Assoc.{find, update}
use co_bridge.Base.Errors.{standard, out_of_range}
use co_bridge.Base.Action.{returned, thrown}
use co_bridge.Base.Action.Keeps.{Keeps, Keeps-modify, Keeps-bind}
use co_bridge.Server.Types.{Server, ClientInfo}
use co_bridge.Server.Graph.{client_at, write_client}

client_at_same : (hdl : ℕ) (s : Server) → (client_at hdl s).1 ≡ s
unfolding client_at
client_at_same hdl s = ground arith

pub client_at_found :
    (hdl : ℕ) (s : Server) {c : ClientInfo}
    → find hdl s.clients ≡ some c
    → client_at hdl s ≡ (returned c, s)
unfolding client_at
client_at_found hdl s found = rw (found, client_at)

-- Either the client is there and is given, or the read throws.
pub client_at_cases :
    (hdl : ℕ) (s : Server)
    → ((c : ClientInfo) × (find hdl s.clients ≡ some c) × (client_at hdl s ≡ (returned c, s)))
      ⊎ (client_at hdl s ≡ (thrown (standard out_of_range), s))
unfolding client_at
client_at_cases hdl s = elim (Option-cases (find hdl s.clients)) [
  | inl gone ↦ inr (rw (gone, client_at))
  | inr (c, found) ↦ inl (c, found, client_at_found hdl s found)
]

module _ {P : Server → Type 0} where
  pub Keeps-client_at : (hdl : ℕ) → Keeps P (client_at hdl)
  Keeps-client_at hdl = record { at = λ s p. rw (client_at_same hdl s) p }

  pub Keeps-write_client :
      (hdl : ℕ) (f : ClientInfo → ClientInfo)
      → ((s : Server) → P s → P (record s { clients = update hdl f s.clients }))
      → Keeps P (write_client hdl f)
  unfolding write_client
  Keeps-write_client hdl f k = Keeps-bind _ _ (Keeps-client_at hdl) λ c. Keeps-modify _ k
