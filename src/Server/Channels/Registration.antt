-- ===== src/Server/Channels/Registration.antt =====
-- `add_channels` with ids to spare: which ids the channels get, and what is registered under them.
use co_bridge.Base.{
  ℕ, suc, ◌+◌, ◌%◌, ◌^◌, ◌<◌, ◌≤◌, ◌≡◌, refl, List, [], ◌∷◌, ◌++◌, map, false, nat_keys, ==_iff,
  length, arith,
}
use mathlib.Core.List.{append-nil, append_assoc}
use co_bridge.Base.Assoc.{Assoc, Each, has_key, emplace}
use co_bridge.Base.Assoc.Entries.{Each_map, Each-append}
use co_bridge.Base.Action.{Outcome, returned, for_each, ◌>>=◌, gets, pure}
use co_bridge.Server.Types
use co_bridge.Server.Types.{Server, Event, Outgoing, Channel, ChannelWithoutId, ClientInfo}
use co_bridge.Server.Environment.{Environment, send_json}
use co_bridge.Server.Channels.{
  register_channel, register_channels, channel_id, send_to_all, add_channels,
}
use co_bridge.Server.Sessions.Closing.{Performs-send_json}

-- The channels under the ids that follow `n`.
unfoldable pub numbered : ℕ → List ChannelWithoutId → List Channel
numbered n [] = []
numbered n (c ∷ cs) = record { id = n + 1; without_id = c } ∷ numbered (n + 1) cs

abbrev pub entry : Channel → ℕ × Channel
entry c = (c.id, c)

-- No channel has an id above the counter.
abbrev pub IdsUpTo : ℕ → Assoc ℕ Channel → Type 0
IdsUpTo n m = Each (λ id c. id ≤ n) m

abbrev registered : List ChannelWithoutId → Server → Server
registered cs s = record s {
  next_channel_id = s.next_channel_id + length cs;
  channels = s.channels ++ map entry (numbered s.next_channel_id cs);
}

pub fresh : (n : ℕ) (m : Assoc ℕ Channel) → IdsUpTo n m → has_key (n + 1) m ≡ false
unfolding has_key
fresh n [] h = refl
fresh n ((j, c) ∷ m) h = ground (arith, fresh n m h.1, h.0, ==_iff (n + 1) j)

register_one :
    (c : ChannelWithoutId) (s : Server)
    → s.next_channel_id + 1 < 2 ^ 32
    → IdsUpTo s.next_channel_id s.channels
    → register_channel c s
      ≡ (returned (record { id = s.next_channel_id + 1; without_id = c }), registered (c ∷ []) s)
unfolding register_channel numbered emplace
register_one c s h below =
    let small : (s.next_channel_id + 1) % 2 ^ 32 ≡ s.next_channel_id + 1 = omega arith in
    rw (small, fresh s.next_channel_id s.channels below) refl

register_all :
    (cs : List ChannelWithoutId) (s : Server)
    → s.next_channel_id + length cs < 2 ^ 32
    → IdsUpTo s.next_channel_id s.channels
    → register_channels cs s ≡ (returned (numbered s.next_channel_id cs), registered cs s)
unfolding register_channels ◌>>=◌ numbered pure
register_all [] s h below =
    let zero_more : s.next_channel_id + 0 ≡ s.next_channel_id = omega arith in
    rw (zero_more, append-nil s.channels) refl
register_all (c ∷ cs) s h below =
    let n : ℕ = s.next_channel_id in
    let below' : IdsUpTo (n + 1)
        (s.channels ++ ((n + 1, record { id = n + 1; without_id = c }) ∷ [])) =
      Each-append (λ id d. id ≤ n + 1) s.channels _
        (Each_map _ _ s.channels (λ id d q. omega arith) below) (omega arith, tt) in
    rw
      (
        register_one c s (omega arith) below,
        register_all cs (registered (c ∷ []) s) (omega arith) below',
      )
      (together (n + 1 + length cs) (n + suc (length cs)) _ _ (omega arith)
        (append_assoc s.channels _ (map entry (numbered (n + 1) cs))))
  where
    together :
        (n m : ℕ) (l k : Assoc ℕ Channel)
        → n ≡ m
        → l ≡ k
        → ◌≡◌ {A = Outcome (List Channel) × Server}
            (
              returned (numbered s.next_channel_id (c ∷ cs)),
              record s { next_channel_id = n; channels = l },
            )
            (
              returned (numbered s.next_channel_id (c ∷ cs)),
              record s { next_channel_id = m; channels = k },
            )
    together n m l k e f = rw (e, f) refl

sends_each :
    (env : Environment) (msg : Outgoing) (l : Assoc ℕ ClientInfo) (s : Server)
    → (t : List Event) × (for_each l (λ c. send_json env c.0 msg) s
        ≡ (returned tt, record s { trace = t }))
unfolding for_each ◌>>=◌ pure
sends_each env msg [] s = (s.trace, refl)
sends_each env msg (c ∷ l) s =
    let (t, e) = (Performs-send_json env c.0 msg).at s in
    let (t', e') = sends_each env msg l (record s { trace = t }) in (t', rw e e')

-- With enough ids to spare, and no channel above the counter, `add_channels` returns the ids that
-- follow the counter, one for each channel, has each channel under its id behind the old ones, and
-- advances the counter past them; nothing else but the trace changes.
pub add_channels-registers :
    (env : Environment) (cs : List ChannelWithoutId) (s : Server)
    → s.next_channel_id + length cs < 2 ^ 32
    → IdsUpTo s.next_channel_id s.channels
    → (t : List Event) × (add_channels env cs s ≡ (
      returned (map channel_id (numbered s.next_channel_id cs)),
      record s {
        next_channel_id = s.next_channel_id + length cs;
        channels = s.channels ++ map entry (numbered s.next_channel_id cs);
        trace = t;
      },
    ))
unfolding add_channels numbered pure
add_channels-registers env [] s h below =
    let zero_more : s.next_channel_id + 0 ≡ s.next_channel_id = omega arith in
    (s.trace, rw (zero_more, append-nil s.channels) refl)
add_channels-registers env (c ∷ cs) s h below =
    let (t, e) =
      sends_each env (Types.advertise (numbered s.next_channel_id (c ∷ cs))) s.clients
        (registered (c ∷ cs) s) in
    (t, unfold ◌>>=◌ send_to_all gets in rw (register_all (c ∷ cs) s h below, e) refl)
