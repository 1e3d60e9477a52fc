-- ===== src/Ros2Bridge/Offered.antt =====
-- The channels that a bridge advertises and those that the server offers, as maps.
use mathlib.Core.List.{append-nil, append_assoc}
use co_bridge.Base.{
  ℕ, suc, ◌+◌, ◌≤◌, ◌≡◌, refl, sym, ap, ◌∙◌, inl, inr, List, [], ◌∷◌, ◌++◌, map, Bool, true, false,
  Option, none, some, nat_keys, ==_iff, ◌==◌, Bool-cases, contains, length, if◌then◌else◌, arith,
}
use co_bridge.Base.Assoc.{
  Assoc, Distinct, find, has_key, emplace, erase, has_key-find, find-erase, find-emplace,
  find-append, is_some,
}
use co_bridge.Base.Assoc.Entries.{Each-erase, Each-append, Each_map, Distinct-emplace}
use co_bridge.Base.Assoc.Nested.{find_absent}
use co_bridge.Server.Types.{Channel, ChannelWithoutId}
use co_bridge.Server.Channels.{channel_id, erase_all}
use co_bridge.Server.Channels.Registration.{numbered, entry, IdsUpTo, fresh}
use co_bridge.Ros2Bridge.Topics.{
  pair_keys, TopicAndDatatype, topic_of, remove_stale, store_channels,
}
use co_bridge.Ros2Bridge.Stale.{remove_stale-splits}

abbrev pub offered : ℕ → Option ChannelWithoutId → Option Channel
offered k none = none
offered k (some c) = some (record { id = k; without_id = c })

-- The server offers exactly what the bridge advertises, under the same ids, none of which is above the counter.
pub record Agrees (advertised : Assoc ℕ ChannelWithoutId) (next : ℕ) (channels : Assoc ℕ Channel)
    : Type 0 where
  pub distinct : Distinct advertised
  pub below : IdsUpTo next channels
  pub same : (k : ℕ) → find k channels ≡ offered k (find k advertised)

find-erase_all :
    {V : Type 0} (k : ℕ) (ids : List ℕ) (m : Assoc ℕ V)
    → find k (erase_all ids m) ≡ (if contains k ids then none else find k m)
unfolding erase_all contains
find-erase_all k [] m = refl
find-erase_all k (i ∷ ids) m = find-erase_all k ids (erase i m) ∙ ground (arith, find-erase k i m)

erase_all-IdsUpTo :
    (n : ℕ) (ids : List ℕ) (m : Assoc ℕ Channel) → IdsUpTo n m → IdsUpTo n (erase_all ids m)
unfolding erase_all
erase_all-IdsUpTo n [] m h = h
erase_all-IdsUpTo n (i ∷ ids) m h =
    erase_all-IdsUpTo n ids (erase i m) (Each-erase (λ id c. id ≤ n) i m h)

-- A stale entry in front, whose id is not kept behind it.
removed :
    (k id : ℕ) (c : ChannelWithoutId) (m kept : Assoc ℕ ChannelWithoutId) (ids : List ℕ)
    → find k kept ≡ (if contains k ids then none else find k m)
    → has_key id kept ≡ false
    → find k kept ≡ (if contains k (id ∷ ids) then none else find k ((id, c) ∷ m))
unfolding contains find
removed k id c m kept ids rest gone = elim (Bool-cases (k == id)) [
  | inl same ↦
      let none_left : find k kept ≡ none =
        find_absent k kept (ap (λ i. has_key i kept) ((==_iff k id).0 same) ∙ gone) in
      rw same none_left
  | inr other ↦ rw other rest
]

module _ (latest : List TopicAndDatatype) where
  -- What is kept is what is not listed.
  remove_stale-find :
      (k : ℕ) (m : Assoc ℕ ChannelWithoutId)
      → Distinct m
      → find k (remove_stale latest m).kept
        ≡ (if contains k (remove_stale latest m).ids then none else find k m)
  unfolding remove_stale find contains
  remove_stale-find k [] d = refl
  remove_stale-find k ((id, c) ∷ m) d =
      let rest = remove_stale-find k m d.1 in
      let split = remove_stale-splits id latest m in
      elim (Bool-cases (contains (topic_of c) latest)) [
        | inl b ↦ rw b (ground (arith, rest, split, d.0, ==_iff k id))
        | inr b ↦ rw b (removed k id c m _ _ rest (ground (arith, split, d.0)))
      ]

  remove_stale-Distinct :
      (m : Assoc ℕ ChannelWithoutId) → Distinct m → Distinct (remove_stale latest m).kept
  unfolding remove_stale
  remove_stale-Distinct [] d = tt
  remove_stale-Distinct ((id, c) ∷ m) d =
      let split = remove_stale-splits id latest m in
      elim (Bool-cases (contains (topic_of c) latest)) [
        | inl b ↦ rw b (ground (arith, split, d.0), remove_stale-Distinct m d.1)
        | inr b ↦ rw b (remove_stale-Distinct m d.1)
      ]

  -- The removal of the stale channels on both sides.
  pub removal-Agrees :
      (m : Assoc ℕ ChannelWithoutId) (next : ℕ) (channels : Assoc ℕ Channel)
      → Agrees m next channels
      → Agrees (remove_stale latest m).kept next (erase_all (remove_stale latest m).ids channels)
  removal-Agrees m next channels h = record {
    distinct = remove_stale-Distinct m h.distinct;
    below = erase_all-IdsUpTo next (remove_stale latest m).ids channels h.below;
    same = λ k.
        rw
          (
            find-erase_all k (remove_stale latest m).ids channels,
            remove_stale-find k m h.distinct,
            h.same k,
          )
          (offered-if k (contains k (remove_stale latest m).ids) (find k m));
  }
    where
      offered-if :
          (k : ℕ) (b : Bool) (o : Option ChannelWithoutId)
          → (if b then none else offered k o) ≡ offered k (if b then none else o)
      offered-if k true o = refl
      offered-if k false o = refl

offered-none : (k : ℕ) (o : Option ChannelWithoutId) → offered k o ≡ none → o ≡ none
offered-none k none h = refl
offered-none k (some c) h = cc

one_more-find :
    (j : ℕ) (c : ChannelWithoutId) (m : Assoc ℕ ChannelWithoutId) (channels : Assoc ℕ Channel)
    (k : ℕ)
    → has_key j m ≡ false
    → has_key j channels ≡ false
    → find k channels ≡ offered k (find k m)
    → find k (channels ++ ((j, record { id = j; without_id = c }) ∷ []))
      ≡ offered k (find k (emplace j c m))
unfolding find
one_more-find j c m channels k free_here free h = elim (Bool-cases (k == j)) [
  | inl e ↦
      let same : k ≡ j = (==_iff k j).0 e in
      let refl_j : (j == j) ≡ true = (==_iff j j).1 refl in
      rw same (
        rw
          (
            find-append j channels ((j, record { id = j; without_id = c }) ∷ []),
            find_absent j channels free,
            find-emplace j j c m,
            refl_j,
            free_here,
          )
          refl)
  | inr e ↦
      let l : Assoc ℕ Channel = (j, record { id = j; without_id = c }) ∷ [] in
      let other : find k l ≡ none = rw e refl in
      rw (find-append k channels l, find-emplace k j c m, e, h) (keeps (find k l) other (find k m))
]
  where
    keeps :
        (l : Option Channel)
        → l ≡ none
        → (o : Option ChannelWithoutId)
        → ◌≡◌ {A = Option Channel} (elim (offered k o) [ none ↦ l | some d ↦ some d ]) (offered k o)
    keeps l n none = n
    keeps l n (some d) = refl

-- One more channel on both sides.
one_more :
    (c : ChannelWithoutId) (m : Assoc ℕ ChannelWithoutId) (next : ℕ) (channels : Assoc ℕ Channel)
    → Agrees m next channels
    → Agrees
        (emplace (next + 1) c m)
        (next + 1)
        (channels ++ ((next + 1, record { id = next + 1; without_id = c }) ∷ []))
one_more c m next channels h =
    let new : Channel = record { id = next + 1; without_id = c } in
    let free : has_key (next + 1) channels ≡ false = fresh next channels h.below in
    let none_there : find (next + 1) channels ≡ none = find_absent (next + 1) channels free in
    let none_here : find (next + 1) m ≡ none =
      offered-none (next + 1) _ (sym (h.same (next + 1)) ∙ none_there) in
    let free_here : has_key (next + 1) m ≡ false =
      has_key-find (next + 1) m ∙ ap is_some none_here in
    record {
      distinct = Distinct-emplace (next + 1) c m h.distinct;
      below =
          Each-append (λ id d. id ≤ next + 1) channels _
            (Each_map _ _ channels (λ id d q. omega arith) h.below) (omega arith, tt);
      same = λ k. one_more-find (next + 1) c m channels k free_here free (h.same k);
    }

-- The registration of channels on both sides.
pub registration-Agrees :
    (cs : List ChannelWithoutId) (m : Assoc ℕ ChannelWithoutId) (next : ℕ)
    (channels : Assoc ℕ Channel)
    → Agrees m next channels
    → Agrees
        (store_channels (map channel_id (numbered next cs)) cs m)
        (next + length cs)
        (channels ++ map entry (numbered next cs))
unfolding numbered store_channels
registration-Agrees [] m next channels h =
    let zero_more : next + 0 ≡ next = omega arith in rw (zero_more, append-nil channels) h
registration-Agrees (c ∷ cs) m next channels h =
    let more : next + suc (length cs) ≡ next + 1 + length cs = omega arith in
    let rest =
      registration-Agrees cs (emplace (next + 1) c m) (next + 1) _ (one_more c m next channels h) in
    let new : ℕ × Channel = (next + 1, record { id = next + 1; without_id = c }) in
    rw (more, sym (append_assoc channels (new ∷ []) (map entry (numbered (next + 1) cs)))) rest
