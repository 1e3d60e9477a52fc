-- ===== src/Server/Channels/Removal.antt =====
-- What `remove_channels` leaves of the channels, however the sends end.
use co_bridge.Base.{ℕ, ◌≡◌, refl, List, [], ◌∷◌, nat_keys}
use co_bridge.Base.Assoc.{Assoc}
use co_bridge.Base.Action.{◌>>=◌}
use co_bridge.Base.Action.Keeps.{Keeps-bind, Keeps-modify, Keeps-for_each}
use co_bridge.Server.Types
use co_bridge.Server.Types.{Server, Channel}
use co_bridge.Server.Environment.{Environment}
use co_bridge.Server.Channels.{erase_all, remove_channels}
use co_bridge.Server.Invariant.Sends.{Keeps-send_json}

-- The channels of a server and its counter of their ids.
pub record Offers (channels : Assoc ℕ Channel) (next : ℕ) (s : Server) : Type 0 where
  pub all : s.channels ≡ channels
  pub counter : s.next_channel_id ≡ next

-- The channels that are removed are erased, and the counter stays.
pub remove_channels-Offers :
    (env : Environment) (ids : List ℕ) (s : Server)
    → Offers (erase_all ids s.channels) s.next_channel_id (remove_channels env ids s).1
unfolding remove_channels ◌>>=◌
remove_channels-Offers env [] s = unfold erase_all in record { all = refl; counter = refl }
remove_channels-Offers env (i ∷ ids) s =
    let removed = erase_all (i ∷ ids) s.channels in
    (Keeps-for_each {P = Offers removed s.next_channel_id} s.clients _ λ c.
        Keeps-bind _ _ (Keeps-modify _ λ t h. record { all = h.all; counter = h.counter }) λ _.
          Keeps-send_json (λ t u h. record { all = h.all; counter = h.counter }) env c.0
            (Types.unadvertise (i ∷ ids))).at
      _ (record { all = refl; counter = refl })
