-- ===== src/Ros1Bridge/Backoff.antt =====
-- The time between two updates of the ROS 1 nodelet.
use native.Mathlib.Nat.{pow-le-pow_right}
use co_bridge.Base.{ℕ, ◌≡◌, ◌⊎◌, ◌≤◌, ◌<◌, ◌^◌, ltb, arith, if◌then◌else◌}
use co_bridge.Ros1Bridge.State.{Master}
use co_bridge.Ros1Bridge.Updates.{one_shifted, next_update_ms}

-- The time for what the shift gives.
abbrev period : ℕ → ℕ → ℕ
period max_update_ms shifted =
    let capped = if ltb max_update_ms shifted then max_update_ms else shifted in
    if ltb 100 capped then capped else 100

period-bounds :
    (max_update_ms shifted : ℕ)
    → (100 ≤ period max_update_ms shifted)
      × ((period max_update_ms shifted ≡ 100) ⊎ (period max_update_ms shifted ≤ max_update_ms))
period-bounds max_update_ms shifted = ground arith

period_grows : (max_update_ms a b : ℕ) → a ≤ b → period max_update_ms a ≤ period max_update_ms b
period_grows max_update_ms a b h = ground arith

one_shifted_lem : (master : Master) (n : ℕ) → n < 64 → one_shifted master n ≡ 2 ^ n
unfolding one_shifted
one_shifted_lem master n h = ground arith

two_positive : 0 < 2
two_positive = omega arith

-- The time until the next update of the ROS 1 nodelet is at least 100 ms, and if more, at most the maximum. While
-- the count of updates is less than 64, it does not become shorter from one update to a later one.
pub next_update_ms-bounds :
    (master : Master) (max_update_ms : ℕ)
    → ((count : ℕ)
        → (100 ≤ next_update_ms master count max_update_ms)
          × ((next_update_ms master count max_update_ms ≡ 100)
              ⊎ (next_update_ms master count max_update_ms ≤ max_update_ms)))
      × ((earlier later : ℕ)
          → earlier ≤ later
          → later < 64
          → next_update_ms master earlier max_update_ms ≤ next_update_ms master later max_update_ms)
unfolding next_update_ms
next_update_ms-bounds master max_update_ms = (
  λ count. period-bounds max_update_ms (one_shifted master count),
  λ earlier later h k.
      let grows : 2 ^ earlier ≤ 2 ^ later = pow-le-pow_right two_positive h in
      let small : earlier < 64 = omega arith in
      rw (one_shifted_lem master earlier small, one_shifted_lem master later k)
        (period_grows max_update_ms (2 ^ earlier) (2 ^ later) grows),
)
