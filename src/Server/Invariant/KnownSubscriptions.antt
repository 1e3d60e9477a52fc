-- ===== src/Server/Invariant/KnownSubscriptions.antt =====
-- Every subscription of a client is to a channel that the server has.
use co_bridge.Base.{
  ℕ, List, [], ◌∷◌, true, false, not, ◌&&◌, ◌≡◌, refl, arith, nat_keys, contains, ◌==◌, ==_iff,
  Bool-cases, inl, inr,
}
use co_bridge.Base.Assoc.{Assoc, has_key, erase, update, Each, has_key-erase, has_key-emplace}
use co_bridge.Base.Assoc.Entries.{Each_map, Each-update, Each-erase, Each-emplace}
use co_bridge.Server.Types.{Server, ClientInfo, Channel, ChannelWithoutId}
use co_bridge.Server.Environment.{Environment, JsonLibrary}
use co_bridge.Server.Channels
use co_bridge.Server.Channels.{erase_all, drop_subscriptions}
use co_bridge.Server.Graph
use co_bridge.Server.Sessions
use co_bridge.Server.Subscriptions
use co_bridge.Server.Requests.{Request, run}
use co_bridge.Server.Invariant.Writes.{Survives, drop_for}
use co_bridge.Server.Invariant.Survival.{Survives-Stable}
use co_bridge.Server.Invariant.Messages.{run-keeps}

abbrev pub SubscribesTo : Assoc ℕ Channel → ClientInfo → Type 0
SubscribesTo channels c = Each (λ id sub. has_key id channels ≡ true) c.subscriptions_by_channel

abbrev pub KnownSubscriptions : Server → Type 0
KnownSubscriptions s = Each (λ hdl c. SubscribesTo s.channels c) s.clients

has_key-erase_all :
    {V : Type 0} (j : ℕ) (ids : List ℕ) (m : Assoc ℕ V)
    → has_key j (erase_all ids m) ≡ (not (contains j ids) && has_key j m)
unfolding erase_all contains
has_key-erase_all j [] m = refl
has_key-erase_all j (k ∷ ks) m =
    ground (arith, has_key-erase_all j ks (erase k m), has_key-erase j k m)

-- What is left after an erasure has another key.
Each_erased :
    {V : Type 0} (P : ℕ → V → Type 0) (k : ℕ) (m : Assoc ℕ V)
    → Each P m
    → Each (λ j v. P j v × (j == k ≡ false)) (erase k m)
unfolding erase
Each_erased P k [] h = tt
Each_erased P k ((j, v) ∷ m) h = elim (Bool-cases (k == j)) [
  | inl same ↦ rw same (Each_erased P k m h.1)
  | inr other ↦ rw other ((h.0, ground (arith, ==_iff j k, ==_iff k j)), Each_erased P k m h.1)
]

Each_erased_all :
    {V : Type 0} (P : ℕ → V → Type 0) (ids : List ℕ) (m : Assoc ℕ V)
    → Each P m
    → Each (λ j v. P j v × (contains j ids ≡ false)) (erase_all ids m)
unfolding erase_all contains
Each_erased_all P [] m h = Each_map P _ m (λ j v p. (p, refl)) h
Each_erased_all P (k ∷ ks) m h =
    Each_map _ _ (erase_all ks (erase k m)) (λ j v p. (p.0.0, ground (arith, p.0.1, p.1)))
      (Each_erased_all (λ j v. P j v × (j == k ≡ false)) ks (erase k m) (Each_erased P k m h))

drop-SubscribesTo :
    (ids : List ℕ) (channels : Assoc ℕ Channel) (c : ClientInfo)
    → SubscribesTo channels c
    → SubscribesTo (erase_all ids channels) (drop_subscriptions ids c)
unfolding drop_subscriptions
drop-SubscribesTo ids channels c h =
    Each_map _ _ (erase_all ids c.subscriptions_by_channel)
      (λ j sub p. rw (has_key-erase_all j ids channels, p.0, p.1) refl)
      (Each_erased_all (λ id sub. has_key id channels ≡ true) ids c.subscriptions_by_channel h)

-- In the middle of `remove_channels`, with the clients of `l` still to come: what is not in `l` has
-- what the drop brings.
module _ (ids : List ℕ) (P Q : ClientInfo → Type 0)
    (drops : (c : ClientInfo)
      → P c
      → P (drop_subscriptions ids c) × Q (drop_subscriptions ids c)) where
  drop_step :
      (j : ℕ) (w : ClientInfo) (l m : Assoc ℕ ClientInfo)
      → Each (λ k c. P c × (has_key k ((j, w) ∷ l) ≡ false → Q c)) m
      → Each (λ k c. P c × (has_key k l ≡ false → Q c)) (update j (drop_subscriptions ids) m)
  unfolding update has_key
  drop_step j w l [] h = tt
  drop_step j w l ((k, c) ∷ m) h = elim (Bool-cases (j == k)) [
    | inl same ↦ rw same (((drops c h.0.0).0, λ e. (drops c h.0.0).1), drop_step j w l m h.1)
    | inr other ↦
        rw other
          ((h.0.0, λ e. h.0.1 (ground (arith, ==_iff j k, ==_iff k j))), drop_step j w l m h.1)
  ]

  drop_for-Each :
      (l m : Assoc ℕ ClientInfo)
      → Each (λ k c. P c × (has_key k l ≡ false → Q c)) m
      → Each (λ k c. Q c) (drop_for ids l m)
  unfolding drop_for has_key
  drop_for-Each [] m h = Each_map _ _ m (λ k c p. p.1 refl) h
  drop_for-Each ((j, w) ∷ l) m h = drop_for-Each l _ (drop_step j w l m h)

Each_in :
    (P : ClientInfo → Type 0) (m l : Assoc ℕ ClientInfo)
    → ((k : ℕ) → has_key k m ≡ true → has_key k l ≡ true)
    → Each (λ k c. P c) m
    → Each (λ k c. P c × (has_key k l ≡ true)) m
unfolding has_key
Each_in P [] l sub h = tt
Each_in P ((j, w) ∷ m) l sub h =
    ((h.0, sub j (ground (arith, ==_iff j j))), Each_in P m l (λ k e. sub k (ground arith)) h.1)

removed :
    (ids : List ℕ) (s : Server)
    → KnownSubscriptions s
    → Each (λ hdl c. SubscribesTo (erase_all ids s.channels) c) (drop_for ids s.clients s.clients)
removed ids s p =
    drop_for-Each ids (SubscribesTo s.channels) (SubscribesTo (erase_all ids s.channels))
      (λ c q. (weaker c q, drop-SubscribesTo ids s.channels c q)) s.clients s.clients
      (Each_map _ _ s.clients (λ k c q. (q.0, λ e. absurd (ground (arith, q.1, e))))
        (Each_in (SubscribesTo s.channels) s.clients s.clients (λ k e. e) p))
  where
    weaker :
        (c : ClientInfo)
        → SubscribesTo s.channels c
        → SubscribesTo s.channels (drop_subscriptions ids c)
    weaker c q =
        unfold drop_subscriptions in
        Each_map _ _ (erase_all ids c.subscriptions_by_channel) (λ j sub r. r.0)
          (Each_erased_all (λ id sub. has_key id s.channels ≡ true) ids c.subscriptions_by_channel
            q)

-- A write to a client that keeps its subscriptions known.
written :
    (k : ℕ) (f : ClientInfo → ClientInfo) (s : Server)
    → ((c : ClientInfo) → SubscribesTo s.channels c → SubscribesTo s.channels (f c))
    → KnownSubscriptions s
    → KnownSubscriptions (record s { clients = update k f s.clients })
written k f s h p = Each-update (λ hdl c. SubscribesTo s.channels c) k f s.clients h p

known_more :
    (c : ChannelWithoutId) (s : Server)
    → KnownSubscriptions s
    → KnownSubscriptions (Channels.register_channel c s).1
unfolding Channels.register_channel
known_more c s p =
    Each_map _ _ s.clients
      (λ hdl i q.
        Each_map _ _ i.subscriptions_by_channel
          (λ id sub known. rw (has_key-emplace id _ _ s.channels, known) (ground arith)) q)
      p

pub Survives-KnownSubscriptions : Survives Unit KnownSubscriptions
unfolding Channels.register_service
Survives-KnownSubscriptions = record {
  untraced = λ s t p. p;
  register_channel = λ may. known_more;
  register_service = λ d s p. p;
  erase_service = λ k s p. p;
  remove_channels = λ may. removed;
  params = λ m s p. p;
  options = λ o s p. p;
  graph = λ p t d s q. q;
  counted = λ s p. p;
  marked = λ hdl s first p. written hdl (Graph.flag true) s (λ c e. e) p;
  unmarked = λ hdl c s found is_marked p. written hdl (Graph.flag false) s (λ c e. e) p;
  kicked = λ hdl s p. written hdl Sessions.log_out s (λ c e. e) p;
  entered = λ user_name user_id endpoint hdl s p out.
      Each-emplace (λ k c. SubscribesTo s.channels c) hdl
        (Sessions.new_client endpoint user_name user_id hdl) s.clients p tt;
  left = λ hdl c s found p. Each-erase (λ k c. SubscribesTo s.channels c) hdl s.clients p;
  subscribed = λ hdl channel sub s known p.
      written hdl (Subscriptions.add_subscription channel sub) s
        (λ c e.
          Each-emplace (λ id v. has_key id s.channels ≡ true) channel sub c.subscriptions_by_channel
            e known)
        p;
  unsubscribed = λ hdl channel s p.
      written hdl (Subscriptions.drop_subscription channel) s
        (λ c e.
          Each-erase (λ id v. has_key id s.channels ≡ true) channel c.subscriptions_by_channel e)
        p;
  new_publications = λ hdl s p. p;
  advertised = λ hdl a s p. written hdl (Subscriptions.add_advertised a.channel_id) s (λ c e. e) p;
  unadvertised = λ hdl id s p. written hdl (Subscriptions.drop_advertised id) s (λ c e. e) p;
}

-- Through every run, each subscription of each client is to a channel that the server has, if that
-- is so at the start.
pub run-KnownSubscriptions :
    (env : Environment) (json : JsonLibrary) (rs : List Request) (s : Server)
    → KnownSubscriptions s
    → KnownSubscriptions (run env json rs s)
run-KnownSubscriptions env json rs s p =
    run-keeps env json (Survives-Stable env Survives-KnownSubscriptions) rs s p
