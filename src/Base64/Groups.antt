-- ===== src/Base64/Groups.antt =====
-- One round of the decoder: four characters of the alphabet, or what ends in pads.
use co_bridge.Base.{ℕ, ◌+◌, ◌*◌, ◌%◌, ◌^◌, ◌<◌, ◌≡◌, refl, List, [], ◌∷◌, ◌++◌, some, arith}
use Prim.Native.Nat.{bit_or}
use co_bridge.Base.Bits.{or_below}
use co_bridge.Base.Action.{returned}
use co_bridge.Base64.{digit, pad, shifted, byte_of, decode_loop}
use co_bridge.Base64.Alphabet.{digit-pad}

-- What `temp` is after one more character of index `d`.
abbrev pub join : ℕ → ℕ → ℕ
join t d = bit_or (shifted t) d

shifted_lem : (t : ℕ) → shifted t ≡ t % 2 ^ 26 * 2 ^ 6
unfolding shifted
shifted_lem t = omega arith

join_sum : (t d : ℕ) → d < 64 → join t d ≡ t % 2 ^ 26 * 64 + d
join_sum t d h = rw (shifted_lem t) (or_below 6 (t % 2 ^ 26) d h)

pub join_two :
    (t p q : ℕ) → p < 64 → q < 64 → shifted (join (join t p) q) % 2 ^ 18 ≡ (p * 64 + q) * 64
join_two t p q hp hq =
    omega (arith, shifted_lem (join (join t p) q), join_sum t p hp, join_sum (join t p) q hq)

join_three :
    (t p q r : ℕ)
    → p < 64
    → q < 64
    → r < 64
    → join (join (join t p) q) r % 2 ^ 18 ≡ (p * 64 + q) * 64 + r
join_three t p q r hp hq hr =
    omega (arith, join_sum t p hp, join_sum (join t p) q hq, join_sum (join (join t p) q) r hr)

pub join_three_shifted :
    (t p q r : ℕ)
    → p < 64
    → q < 64
    → r < 64
    → shifted (join (join (join t p) q) r) % 2 ^ 24 ≡ ((p * 64 + q) * 64 + r) * 64
join_three_shifted t p q r hp hq hr =
    omega (arith, shifted_lem (join (join (join t p) q) r), join_three t p q r hp hq hr)

pub join_four :
    (t p q r v : ℕ)
    → p < 64
    → q < 64
    → r < 64
    → v < 64
    → join (join (join (join t p) q) r) v % 2 ^ 24 ≡ ((p * 64 + q) * 64 + r) * 64 + v
join_four t p q r v hp hq hr hv =
    omega (arith, join_three t p q r hp hq hr, join_sum (join (join (join t p) q) r) v hv)

module _ (w x : ℕ) (p q : ℕ) (hw : digit w ≡ some p) (hx : digit x ≡ some q) where
  -- Four characters give three bytes.
  pub decode_four :
      (y z r v : ℕ) (rest : List ℕ) (t : ℕ) (decoded : List ℕ)
      → digit y ≡ some r
      → digit z ≡ some v
      → let t' = join (join (join (join t p) q) r) v in
        decode_loop (w ∷ x ∷ y ∷ z ∷ rest) 0 t decoded
        ≡ decode_loop rest 0 t' (decoded ++ (byte_of t' 16 ∷ byte_of t' 8 ∷ byte_of t' 0 ∷ []))
  unfolding decode_loop
  decode_four y z r v rest t decoded hy hz = rw (hw, hx, hy, hz, decode_loop) refl

  -- Three characters and a pad give two bytes.
  pub decode_three :
      (y r : ℕ) (t : ℕ) (decoded : List ℕ)
      → digit y ≡ some r
      → let t' = shifted (join (join (join t p) q) r) in
        decode_loop (w ∷ x ∷ y ∷ pad ∷ []) 0 t decoded
        ≡ returned (decoded ++ (byte_of t' 16 ∷ byte_of t' 8 ∷ []))
  unfolding decode_loop
  decode_three y r t decoded hy = rw (hw, hx, hy, digit-pad, decode_loop) refl

  -- Two characters and two pads give one byte.
  pub decode_two :
      (t : ℕ) (decoded : List ℕ)
      → let t' = shifted (join (join t p) q) in
        decode_loop (w ∷ x ∷ pad ∷ pad ∷ []) 0 t decoded
        ≡ returned (decoded ++ (byte_of t' 10 ∷ []))
  unfolding decode_loop
  decode_two t decoded = rw (hw, hx, digit-pad, decode_loop) refl
