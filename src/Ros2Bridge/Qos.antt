-- ===== src/Ros2Bridge/Qos.antt =====
-- The quality of service that CoBridge::subscribe asks for, from that of the publishers.
use co_bridge.Base.{
  ℕ, ◌+◌, ◌%◌, ◌^◌, String, List, [], ◌∷◌, Bool, true, false, ltb, nat_eq, if◌then◌else◌, length,
}

pub data Reliability : Type 0 where
  reliable best_effort other_reliability : Reliability

pub data Durability : Type 0 where
  transient_local durability_volatile other_durability : Durability

pub data History : Type 0 where
  keep_last history_system_default history_unknown other_history : History

-- What the bridge reads of an rclcpp::QoS.
pub record QosProfile : Type 0 where
  pub reliability : Reliability
  pub durability : Durability
  pub history : History
  pub depth : ℕ

-- What it reads of an rclcpp::TopicEndpointInfo.
pub record EndpointInfo : Type 0 where
  pub node_name : String
  pub node_namespace : String
  pub qos_profile : QosProfile

abbrev pub is_reliable : Reliability → Bool
is_reliable reliable = true
is_reliable best_effort = false
is_reliable other_reliability = false

abbrev pub is_transient_local : Durability → Bool
is_transient_local transient_local = true
is_transient_local durability_volatile = false
is_transient_local other_durability = false

abbrev pub max : ℕ → ℕ → ℕ
max a b = if ltb a b then b else a

-- The variables of the loop over the publishers; size_t has 64 bits.
pub record Tally : Type 0 where
  pub total_depth : ℕ
  pub reliable_count : ℕ
  pub transient_local_count : ℕ

abbrev pub count_one : Bool → ℕ → ℕ
count_one true n = n + 1
count_one false n = n

unfoldable pub tally : List EndpointInfo → Tally → Tally
tally [] t = t
tally (p ∷ ps) t = tally ps (record {
  total_depth = (t.total_depth + max 1 p.qos_profile.depth) % 2 ^ 64;
  reliable_count = count_one (is_reliable p.qos_profile.reliability) t.reliable_count;
  transient_local_count =
      count_one (is_transient_local p.qos_profile.durability) t.transient_local_count;
})

abbrev pub limit_depth : ℕ → ℕ → ℕ → ℕ
limit_depth min_depth max_depth depth =
    let at_least = max depth min_depth in if ltb max_depth at_least then max_depth else at_least

unfoldable pub select_qos : ℕ → ℕ → List EndpointInfo → QosProfile
unfolding tally
select_qos min_depth max_depth publishers =
    let t =
      tally publishers
        (record { total_depth = 0; reliable_count = 0; transient_local_count = 0 }) in
    record {
      reliability = if nat_eq t.reliable_count (length publishers) then reliable else best_effort;
      durability =
          if nat_eq t.transient_local_count (length publishers)
          then transient_local
          else durability_volatile;
      history = keep_last;
      depth = limit_depth min_depth max_depth t.total_depth;
    }
