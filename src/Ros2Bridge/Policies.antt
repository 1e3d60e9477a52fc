-- ===== src/Ros2Bridge/Policies.antt =====
-- What select_qos gives for all that the publishers offer: the depth and the two policies.
use co_bridge.Base.{
  ℕ, suc, ◌+◌, ◌%◌, ◌^◌, ◌≤◌, ◌<◌, ◌≡◌, ◌↔◌, refl, List, [], ◌∷◌, Bool, true, false, length, All,
  Bool-cases, inl, inr, arith,
}
use co_bridge.Ros2Bridge.Qos.{
  EndpointInfo, is_reliable, is_transient_local, max, Tally, count_one, tally, select_qos,
}

-- The depths that the publishers ask for, at least one each.
abbrev pub depth_sum : List EndpointInfo → ℕ
depth_sum [] = 0
depth_sum (p ∷ ps) = max 1 p.qos_profile.depth + depth_sum ps

abbrev pub IsReliable : EndpointInfo → Type 0
IsReliable p = is_reliable p.qos_profile.reliability ≡ true

abbrev pub IsTransientLocal : EndpointInfo → Type 0
IsTransientLocal p = is_transient_local p.qos_profile.durability ≡ true

tally_depth :
    (ps : List EndpointInfo) (t : Tally)
    → t.total_depth + depth_sum ps < 2 ^ 64
    → (tally ps t).total_depth ≡ t.total_depth + depth_sum ps
unfolding tally
tally_depth [] t h = omega arith
tally_depth (p ∷ ps) t h =
    let m : (t.total_depth + max 1 p.qos_profile.depth) % 2 ^ 64
        ≡ t.total_depth + max 1 p.qos_profile.depth =
      omega arith in
    let r =
      tally_depth ps
        (record {
          total_depth = (t.total_depth + max 1 p.qos_profile.depth) % 2 ^ 64;
          reliable_count = count_one (is_reliable p.qos_profile.reliability) t.reliable_count;
          transient_local_count =
              count_one (is_transient_local p.qos_profile.durability) t.transient_local_count;
        })
        (omega arith) in
    omega arith

-- How many of the publishers pass a test.
abbrev count_of : (EndpointInfo → Bool) → List EndpointInfo → ℕ
count_of test [] = 0
count_of test (p ∷ ps) = count_one (test p) (count_of test ps)

count_one_add : (b : Bool) (n : ℕ) → count_one b n ≡ n + count_one b 0
count_one_add true n = omega arith
count_one_add false n = omega arith

tally_reliable :
    (ps : List EndpointInfo) (t : Tally)
    → (tally ps t).reliable_count
      ≡ t.reliable_count + count_of (λ p. is_reliable p.qos_profile.reliability) ps
unfolding tally
tally_reliable [] t = omega arith
tally_reliable (p ∷ ps) t =
    let b = is_reliable p.qos_profile.reliability in
    omega (
      arith,
      tally_reliable ps _,
      count_one_add b t.reliable_count,
      count_one_add b (count_of (λ q. is_reliable q.qos_profile.reliability) ps),
    )

tally_transient_local :
    (ps : List EndpointInfo) (t : Tally)
    → (tally ps t).transient_local_count
      ≡ t.transient_local_count + count_of (λ p. is_transient_local p.qos_profile.durability) ps
unfolding tally
tally_transient_local [] t = omega arith
tally_transient_local (p ∷ ps) t =
    let b = is_transient_local p.qos_profile.durability in
    omega (
      arith,
      tally_transient_local ps _,
      count_one_add b t.transient_local_count,
      count_one_add b (count_of (λ q. is_transient_local q.qos_profile.durability) ps),
    )

count_of-le : (test : EndpointInfo → Bool) (ps : List EndpointInfo) → count_of test ps ≤ length ps
count_of-le test [] = omega arith
count_of-le test (p ∷ ps) = ground (arith, count_of-le test ps)

count_of-All :
    (test : EndpointInfo → Bool) (ps : List EndpointInfo)
    → count_of test ps ≡ length ps
    → All (λ p. test p ≡ true) ps
count_of-All test [] h = tt
count_of-All test (p ∷ ps) h = elim (Bool-cases (test p)) [
  | inl b ↦
      let e : count_of test ps + 1 ≡ suc (length ps) = rw b at h in
      (b, count_of-All test ps (omega arith))
  | inr b ↦
      let e : count_of test ps ≡ suc (length ps) = rw b at h in
      absurd (omega (arith, count_of-le test ps))
]

All-count_of :
    (test : EndpointInfo → Bool) (ps : List EndpointInfo)
    → All (λ p. test p ≡ true) ps
    → count_of test ps ≡ length ps
All-count_of test [] h = refl
All-count_of test (p ∷ ps) h = rw h.0 (omega (arith, All-count_of test ps h.1))

-- The depth lies between the limits, if these are in order.
select_qos-depth_bounds :
    (min_depth max_depth : ℕ) (ps : List EndpointInfo)
    → min_depth ≤ max_depth
    → (min_depth ≤ (select_qos min_depth max_depth ps).depth)
      × ((select_qos min_depth max_depth ps).depth ≤ max_depth)
unfolding select_qos
select_qos-depth_bounds min_depth max_depth ps h = ground arith

-- Where the sum of the publishers' depths, each counted as one at least, fits 64 bits and lies between the
-- limits, that sum is the depth.
pub select_qos-depth :
    (min_depth max_depth : ℕ) (ps : List EndpointInfo)
    → depth_sum ps < 2 ^ 64
    → min_depth ≤ depth_sum ps
    → depth_sum ps ≤ max_depth
    → (select_qos min_depth max_depth ps).depth ≡ depth_sum ps
unfolding select_qos
select_qos-depth min_depth max_depth ps f h k =
    let e =
      tally_depth ps (record { total_depth = 0; reliable_count = 0; transient_local_count = 0 })
        (omega arith) in
    ground arith

-- The subscription asks for reliable delivery exactly if every publisher offers it, and for transient local
-- durability exactly if every publisher offers that; so it asks for both where there is no publisher.
select_qos-policies :
    (min_depth max_depth : ℕ) (ps : List EndpointInfo)
    → ((is_reliable (select_qos min_depth max_depth ps).reliability ≡ true) ↔ All IsReliable ps)
      × ((is_transient_local (select_qos min_depth max_depth ps).durability ≡ true)
          ↔ All IsTransientLocal ps)
unfolding select_qos
select_qos-policies min_depth max_depth ps =
    let start : Tally = record { total_depth = 0; reliable_count = 0; transient_local_count = 0 } in
    let r = tally_reliable ps start in
    let t = tally_transient_local ps start in
    (
      (
        λ h. count_of-All (λ p. is_reliable p.qos_profile.reliability) ps (ground arith),
        λ a. let c = All-count_of (λ p. is_reliable p.qos_profile.reliability) ps a in ground arith,
      ),
      (
        λ h. count_of-All (λ p. is_transient_local p.qos_profile.durability) ps (ground arith),
        λ a.
            let c = All-count_of (λ p. is_transient_local p.qos_profile.durability) ps a in
            ground arith,
      ),
    )

-- If the limits are in order, the depth lies between them. The subscription asks for reliable delivery exactly if
-- every publisher offers it, and for transient local durability exactly if every publisher offers that; so it asks
-- for both where there is no publisher.
pub select_qos_lem :
    (min_depth max_depth : ℕ) (ps : List EndpointInfo)
    → min_depth ≤ max_depth
    → ((min_depth ≤ (select_qos min_depth max_depth ps).depth)
        × ((select_qos min_depth max_depth ps).depth ≤ max_depth))
      × ((is_reliable (select_qos min_depth max_depth ps).reliability ≡ true) ↔ All IsReliable ps)
      × ((is_transient_local (select_qos min_depth max_depth ps).durability ≡ true)
          ↔ All IsTransientLocal ps)
select_qos_lem min_depth max_depth ps h =
    let policies = select_qos-policies min_depth max_depth ps in
    (select_qos-depth_bounds min_depth max_depth ps h, policies.0, policies.1)
