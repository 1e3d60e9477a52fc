-- ===== src/Ros2Bridge/Latest.antt =====
-- The channels that update_advertised_topics makes for the latest topics.
use co_bridge.Base.{
  ℕ, String, List, [], ◌∷◌, true, Option, none, some, nat_keys, ◌≡◌, refl, ap, ◌∙◌, contains, All,
}
use co_bridge.Base.Assoc.{Assoc}
use co_bridge.Base.Errors.{What, Exception}
use co_bridge.Base.Action.{Outcome, returned, thrown, pure, throw}
use co_bridge.Base.Action.Yields.{
  Yields, OnReturn, Yields-bind, Yields-throw, Yields-if, Yields-pure, Yields-try_catch,
}
use co_bridge.Server.Types.{ChannelWithoutId}
use co_bridge.Server.Environment.{Environment}
use co_bridge.Server.Parameters.{what_of}
use co_bridge.MessageDefinitions.Specs.{Packages}
use co_bridge.MessageDefinitions.Cache.{Cache}
use co_bridge.MessageDefinitions.FullText.{Search, get_full_msg_text, is_not_found}
use co_bridge.Ros2Bridge.State.{Bridge, BridgeOptions, Ros}
use co_bridge.Ros2Bridge.Topics.{
  pair_keys, TopicAndDatatype, topic_of, is_advertised, plain_channel, defined_channel,
  undefined_channel, search_result, with_channel, full_msg_text, channel_for, channels_to_add,
}
use co_bridge.Ros2Bridge.Stale.{IsLatest}

-- A channel that was made for a topic has its names.
abbrev pub Fits : TopicAndDatatype → Option ChannelWithoutId → Type 0
Fits t none = Unit
Fits t (some c) = topic_of c ≡ t

search_result-OnReturn :
    {A : Type 0} (b : Bridge) (o : Option (Outcome A × Search))
    → OnReturn (λ _. Unit {0}) (search_result b o).0
search_result-OnReturn b none = tt
search_result-OnReturn b (some (returned a, s)) = tt
search_result-OnReturn b (some (thrown x, s)) = tt

with_channel-IsLatest :
    (latest : List TopicAndDatatype) (t : TopicAndDatatype) (o : Option ChannelWithoutId)
    (cs : List ChannelWithoutId)
    → contains t latest ≡ true
    → Fits t o
    → All (IsLatest latest) cs
    → All (IsLatest latest) (with_channel o cs)
with_channel-IsLatest latest t none cs h f k = k
with_channel-IsLatest latest t (some c) cs h f k = (ap (λ u. contains u latest) f ∙ h, k)

pub OnReturn-unit : {A : Type 0} (o : Outcome A) → OnReturn (λ _. Unit {0}) o
OnReturn-unit (returned a) = tt
OnReturn-unit (thrown x) = tt

-- A predicate that does not read the cache is kept while channels are made.
module _ (P : Bridge → Type 0)
    (blind : (b : Bridge) → P b → (c : Cache) → P (record b { definitions = c }))
    (env : Environment) (ros : Ros) (options : BridgeOptions) (packages : Packages) (fuel : ℕ)
    (latest : List TopicAndDatatype) where
  search_result-keeps :
      {A : Type 0} (b : Bridge) (o : Option (Outcome A × Search)) → P b → P (search_result b o).1
  search_result-keeps b none h = h
  search_result-keeps b (some (o, s)) h = blind b h s.cache

  full_msg_text-Yields :
      (t : String) → Yields P (λ _ _. Unit {0}) (full_msg_text env ros options packages fuel t)
  unfolding full_msg_text
  full_msg_text-Yields t = record {
    at = λ b h. (
      search_result-keeps b (get_full_msg_text packages fuel t b.definitions) h,
      search_result-OnReturn b (get_full_msg_text packages fuel t b.definitions),
    );
  }

  undefined_channel-Yields :
      (t : TopicAndDatatype) (x : Exception) → Yields P (λ _. Fits t) (undefined_channel t x)
  unfolding undefined_channel
  undefined_channel-Yields t x =
      Yields-if _ (is_not_found x) _ _ (Yields-pure (Fits t) (some (plain_channel t)) refl)
        (rest (what_of x))
    where
      rest :
          (o : Option What)
          → Yields P (λ _. Fits t) (elim o [ none ↦ throw x | some w ↦ pure none ])
      rest none = Yields-throw _ x
      rest (some w) = Yields-pure (Fits t) none tt

  pub channel_for-Yields :
      (t : TopicAndDatatype) → Yields P (λ _. Fits t) (channel_for env ros options packages fuel t)
  unfolding channel_for
  channel_for-Yields t =
      Yields-try_catch (Fits t) _ _
        (Yields-bind (λ _. Unit {0}) _ _ _ (full_msg_text-Yields t.1)
          (λ definition _. Yields-pure (Fits t) (some (defined_channel t definition)) refl))
        (undefined_channel-Yields t)

  pub channels_to_add-Yields :
      (advertised : Assoc ℕ ChannelWithoutId) (ts : List TopicAndDatatype)
      → All (λ t. contains t latest ≡ true) ts
      → Yields P
          (λ _. All (IsLatest latest))
          (channels_to_add env ros options packages fuel advertised ts)
  unfolding channels_to_add
  channels_to_add-Yields advertised [] h = Yields-pure _ [] tt
  channels_to_add-Yields advertised (t ∷ ts) h =
      let others = channels_to_add-Yields advertised ts h.1 in
      Yields-if _ (is_advertised t advertised) _ _ others (
        Yields-bind (Fits t) _ _ _ (channel_for-Yields t) λ o f.
          Yields-bind (All (IsLatest latest)) _ _ _ others λ cs k.
            Yields-pure (All (IsLatest latest)) _ (with_channel-IsLatest latest t o cs h.0 f k))
