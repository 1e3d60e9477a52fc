-- ===== src/Ros2Bridge/Stale.antt =====
-- The channels that update_advertised_topics removes and stores, as lists and maps.
use co_bridge.Base.{
  ℕ, List, [], ◌∷◌, true, not, ◌&&◌, ◌||◌, nat_keys, ◌≡◌, refl, ◌∙◌, contains, Bool-cases, inl, inr,
  arith, All,
}
use co_bridge.Base.Assoc.{Assoc, Each, has_key, emplace, erase, has_key-emplace, has_key-erase}
use co_bridge.Base.Assoc.Entries.{Each-emplace}
use co_bridge.Base.Action.{}
use co_bridge.Server.Types.{ChannelWithoutId}
use co_bridge.Ros2Bridge.Topics.{
  pair_keys, TopicAndDatatype, topic_of, remove_stale, erase_keys, store_channels,
}

-- A channel of one of the latest topics.
abbrev pub IsLatest : List TopicAndDatatype → ChannelWithoutId → Type 0
IsLatest latest c = contains (topic_of c) latest ≡ true

abbrev pub AllLatest : List TopicAndDatatype → Assoc ℕ ChannelWithoutId → Type 0
AllLatest latest m = Each (λ id c. IsLatest latest c) m

pub remove_stale-latest :
    (latest : List TopicAndDatatype) (m : Assoc ℕ ChannelWithoutId)
    → AllLatest latest (remove_stale latest m).kept
unfolding remove_stale
remove_stale-latest latest [] = tt
remove_stale-latest latest ((id, c) ∷ m) = elim (Bool-cases (contains (topic_of c) latest)) [
  | inl b ↦ rw b (b, remove_stale-latest latest m)
  | inr b ↦ rw b (remove_stale-latest latest m)
]

-- Each channel is kept or listed.
pub remove_stale-splits :
    (k : ℕ) (latest : List TopicAndDatatype) (m : Assoc ℕ ChannelWithoutId)
    → has_key k m
      ≡ (contains k (remove_stale latest m).ids || has_key k (remove_stale latest m).kept)
unfolding remove_stale contains has_key
remove_stale-splits k latest [] = refl
remove_stale-splits k latest ((id, c) ∷ m) = elim (Bool-cases (contains (topic_of c) latest)) [
  | inl b ↦ rw b (ground (arith, remove_stale-splits k latest m))
  | inr b ↦ rw b (ground (arith, remove_stale-splits k latest m))
]

pub has_key-erase_keys :
    {V : Type 0} (k : ℕ) (ids : List ℕ) (m : Assoc ℕ V)
    → has_key k (erase_keys ids m) ≡ (not (contains k ids) && has_key k m)
unfolding erase_keys contains
has_key-erase_keys k [] m = refl
has_key-erase_keys k (i ∷ ids) m =
    has_key-erase_keys k ids (erase i m) ∙ ground (arith, has_key-erase k i m)

pub store_channels-latest :
    (latest : List TopicAndDatatype) (ids : List ℕ) (cs : List ChannelWithoutId)
    (m : Assoc ℕ ChannelWithoutId)
    → All (IsLatest latest) cs
    → AllLatest latest m
    → AllLatest latest (store_channels ids cs m)
unfolding store_channels
store_channels-latest latest (i ∷ ids) (c ∷ cs) m h k =
    store_channels-latest latest ids cs (emplace i c m) h.1
      (Each-emplace (λ id d. IsLatest latest d) i c m k h.0)
store_channels-latest latest [] cs m h k = k
store_channels-latest latest (i ∷ ids) [] m h k = k

pub store_channels-keeps :
    (k : ℕ) (ids : List ℕ) (cs : List ChannelWithoutId) (m : Assoc ℕ ChannelWithoutId)
    → has_key k m ≡ true
    → has_key k (store_channels ids cs m) ≡ true
unfolding store_channels
store_channels-keeps k (i ∷ ids) (c ∷ cs) m h =
    store_channels-keeps k ids cs (emplace i c m) (has_key-emplace k i c m ∙ ground arith)
store_channels-keeps k [] cs m h = h
store_channels-keeps k (i ∷ ids) [] m h = h
