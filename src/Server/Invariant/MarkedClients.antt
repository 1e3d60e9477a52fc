-- ===== src/Server/Invariant/MarkedClients.antt =====
-- The count of connection graph subscriptions against the clients that are marked as subscribed.
use co_bridge.Base.{
  ℕ, ◌+◌, ◌≤◌, ◌≡◌, refl, Bool, true, false, List, [], ◌∷◌, some, arith, nat_keys, text_keys,
  Bool-cases, inl, inr,
}
use co_bridge.Base.Int.{
  increment, decrement, is_nat, HasAtLeast, HasAtLeast-increment, HasAtLeast-decrement,
  HasAtLeast-lower, HasAtLeast-first, is_nat-HasAtLeast,
}
use co_bridge.Base.Assoc.{Assoc, find, update, count_if, Distinct}
use co_bridge.Base.Assoc.Counting.{
  count_if-update, count_if-erase, count_if-emplace, count_if-erase_found, count_if-update_found,
  count_if-update-Distinct,
}
use co_bridge.Base.Assoc.Entries.{Distinct-emplace, Distinct-erase, Distinct-update}
use co_bridge.Server.Types.{Server, ClientInfo}
use co_bridge.Server.Environment.{Environment, JsonLibrary}
use co_bridge.Server.Channels
use co_bridge.Server.Channels.{drop_subscriptions}
use co_bridge.Server.Graph.{flag, subscription_count, count_by}
use co_bridge.Server.Sessions
use co_bridge.Server.Sessions.{new_client}
use co_bridge.Server.Sessions.Closing.{closed}
use co_bridge.Server.Subscriptions
use co_bridge.Server.Requests.{Request, run}
use co_bridge.Server.Invariant.Writes.{Survives, drop_for, write_clients}
use co_bridge.Server.Invariant.Survival.{Survives-Stable}
use co_bridge.Server.Invariant.Messages.{run-keeps}

abbrev pub is_marked : ClientInfo → Bool
is_marked c = c.subscribed_to_connection_graph

abbrev pub marked_clients : Server → ℕ
marked_clients s = count_if is_marked s.clients

-- The count exceeds the number of marked clients by `d` at least, or it has overflowed.
pub record Surplus (d : ℕ) (s : Server) : Type 0 where
  pub distinct : Distinct s.clients
  pub counted : HasAtLeast (marked_clients s + d) (subscription_count s)

module _ (d : ℕ) where
  -- A write that marks nobody.
  written :
      (k : ℕ) (f : ClientInfo → ClientInfo) (s : Server)
      → ((c : ClientInfo) → is_marked (f c) ≡ true → is_marked c ≡ true)
      → Surplus d s
      → Surplus d (write_clients (update k f) s)
  written k f s h p = record {
    distinct = Distinct-update k f s.clients p.distinct;
    counted =
        HasAtLeast-lower _ _ _ (omega (arith, count_if-update is_marked k f s.clients h)) p.counted;
  }

  drop_for-Distinct :
      (ids : List ℕ) (l m : Assoc ℕ ClientInfo) → Distinct m → Distinct (drop_for ids l m)
  unfolding drop_for
  drop_for-Distinct ids [] m h = h
  drop_for-Distinct ids (e ∷ l) m h =
      drop_for-Distinct ids l _ (Distinct-update e.0 (drop_subscriptions ids) m h)

  drop_for-marked :
      (ids : List ℕ) (l m : Assoc ℕ ClientInfo)
      → count_if is_marked (drop_for ids l m) ≤ count_if is_marked m
  unfolding drop_for drop_subscriptions
  drop_for-marked ids [] m = omega arith
  drop_for-marked ids (e ∷ l) m = omega (
    arith,
    drop_for-marked ids l (update e.0 (drop_subscriptions ids) m),
    count_if-update is_marked e.0 (drop_subscriptions ids) m (λ c h. h),
  )

  marked :
      (hdl : ℕ) (s : Server)
      → is_nat 1 (increment (subscription_count s)) ≡ true
      → Surplus d s
      → Surplus d (write_clients (update hdl (flag true)) (count_by increment s))
  marked hdl s first p = record {
    distinct = Distinct-update hdl (flag true) s.clients p.distinct;
    counted =
        let nobody : marked_clients s + d ≡ 0 = HasAtLeast-first _ _ first p.counted in
        HasAtLeast-lower _ 1 _
          (omega (arith, count_if-update-Distinct is_marked hdl (flag true) s.clients p.distinct))
          (is_nat-HasAtLeast 1 _ first);
  }

  unmarked :
      (hdl : ℕ) (c : ClientInfo) (s : Server)
      → find hdl s.clients ≡ some c
      → is_marked c ≡ true
      → Surplus d s
      → Surplus d (count_by decrement (write_clients (update hdl (flag false)) s))
  unmarked hdl c s found is p = record {
    distinct = Distinct-update hdl (flag false) s.clients p.distinct;
    counted = HasAtLeast-decrement _ _ (
        HasAtLeast-lower _ _ _
          (omega (
            arith,
            count_if-update_found is_marked hdl (flag false) c s.clients (λ w. refl) found is,
          ))
          p.counted);
  }

  left :
      (hdl : ℕ) (c : ClientInfo) (s : Server)
      → find hdl s.clients ≡ some c
      → Surplus d s
      → Surplus d (closed hdl c s)
  left hdl c s found p = record {
    distinct = Distinct-erase hdl s.clients p.distinct;
    counted = elim (Bool-cases (is_marked c)) [
      | inl is ↦ rw is (
          HasAtLeast-decrement _ _ (
            HasAtLeast-lower _ _ _
              (omega (arith, count_if-erase_found is_marked hdl c s.clients found is)) p.counted))
      | inr not_marked ↦
          rw not_marked (
            HasAtLeast-lower _ _ _ (omega (arith, count_if-erase is_marked hdl s.clients))
              p.counted)
    ];
  }

  pub Survives-Surplus : Survives Unit (Surplus d)
  unfolding Channels.register_channel Channels.register_service
  Survives-Surplus = record {
    untraced = λ s t p. record { distinct = p.distinct; counted = p.counted };
    register_channel = λ may c s p. record { distinct = p.distinct; counted = p.counted };
    register_service = λ e s p. record { distinct = p.distinct; counted = p.counted };
    erase_service = λ k s p. record { distinct = p.distinct; counted = p.counted };
    remove_channels = λ may ids s p. record {
      distinct = drop_for-Distinct ids s.clients s.clients p.distinct;
      counted =
          HasAtLeast-lower _ _ _ (omega (arith, drop_for-marked ids s.clients s.clients)) p.counted;
    };
    params = λ m s p. record { distinct = p.distinct; counted = p.counted };
    options = λ o s p. record { distinct = p.distinct; counted = p.counted };
    graph = λ a b c s p. record { distinct = p.distinct; counted = p.counted };
    counted = λ s p. record {
      distinct = p.distinct;
      counted = HasAtLeast-lower _ _ _ (omega arith) (HasAtLeast-increment _ _ p.counted);
    };
    marked = marked;
    unmarked = unmarked;
    kicked = λ hdl s p. written hdl Sessions.log_out s (λ c e. e) p;
    entered = λ user_name user_id endpoint hdl s p out. record {
      distinct = Distinct-emplace hdl _ s.clients p.distinct;
      counted =
          HasAtLeast-lower _ _ _
            (omega (
              arith,
              count_if-emplace is_marked hdl (new_client endpoint user_name user_id hdl) s.clients,
            ))
            p.counted;
    };
    left = left;
    subscribed = λ hdl channel sub s known p.
        written hdl (Subscriptions.add_subscription channel sub) s (λ c e. e) p;
    unsubscribed =
        λ hdl channel s p. written hdl (Subscriptions.drop_subscription channel) s (λ c e. e) p;
    new_publications = λ hdl s p. record { distinct = p.distinct; counted = p.counted };
    advertised = λ hdl a s p.
        let q = written hdl (Subscriptions.add_advertised a.channel_id) s (λ c e. e) p in
        record { distinct = q.distinct; counted = q.counted };
    unadvertised = λ hdl id s p.
        let q = written hdl (Subscriptions.drop_advertised id) s (λ c e. e) p in
        record { distinct = q.distinct; counted = q.counted };
  }

-- From a state in which no client stands twice and the count of graph subscriptions exceeds the number of marked
-- clients by `d` at least, every run ends in such a state, or the count, an int, has overflowed: with `d` of 0 the
-- count stays at least that number, and what it once exceeds it by, it exceeds it by until it overflows.
pub run-Surplus :
    (d : ℕ) (env : Environment) (json : JsonLibrary) (rs : List Request) (s : Server)
    → Surplus d s
    → Surplus d (run env json rs s)
run-Surplus d env json rs s p = run-keeps env json (Survives-Stable env (Survives-Surplus d)) rs s p
