-- ===== src/Base64/RoundTrip.antt =====
-- `base64_decode` of what `base64_encode` writes.
use co_bridge.Base.{
  ℕ, ◌+◌, ◌*◌, ◌/◌, ◌%◌, ◌^◌, ◌<◌, ◌≡◌, refl, sym, ap, ◌∙◌, List, [], ◌∷◌, ◌++◌, arith, All, length,
}
use mathlib.Core.List.{append-nil, append_assoc}
use Prim.Native.Nat.{bit_and}
use co_bridge.Base.Bits.{or_below, and_3, and_15, and_63, and_255}
use co_bridge.Base.Action.{returned}
use co_bridge.Base64.{
  first_index, second_index, third_index, fourth_index, byte_of, decode_loop, base64_encode,
  base64_decode,
}
use co_bridge.Base64.Alphabet.{digit-letter}
use co_bridge.Base64.Groups.{
  join_two, join_three_shifted, join_four, decode_two, decode_three, decode_four,
}
use co_bridge.Wire.Layout.{IsByte}

first_sum : (a : ℕ) → first_index a ≡ a / 4
unfolding first_index
first_sum a = refl

second_sum : (a b : ℕ) → b < 256 → second_index a b ≡ a % 4 * 16 + b / 16
unfolding second_index
second_sum a b h = rw (and_3 a) (or_below 4 (a % 4) (b / 16) (omega arith))

third_sum : (b c : ℕ) → c < 256 → third_index b c ≡ b % 16 * 4 + c / 64
unfolding third_index
third_sum b c h = rw (and_15 b) (or_below 2 (b % 16) (c / 64) (omega arith))

fourth_sum : (c : ℕ) → fourth_index c ≡ c % 64
unfolding fourth_index
fourth_sum c = and_63 c

-- The bytes that `temp` holds in its 24 low bits.
byte_of_lem : (t k : ℕ) → byte_of t k ≡ t / 2 ^ k % 256
byte_of_lem t k = and_255 (t / 2 ^ k)

bytes_three :
    (t a b c : ℕ)
    → a < 256
    → b < 256
    → c < 256
    → t % 2 ^ 24 ≡ (a * 256 + b) * 256 + c
    → byte_of t 16 ∷ byte_of t 8 ∷ byte_of t 0 ∷ [] ≡ a ∷ b ∷ c ∷ []
bytes_three t a b c ha hb hc h =
    let e₁ : byte_of t 16 ≡ a = omega (arith, byte_of_lem t 16) in
    let e₂ : byte_of t 8 ≡ b = omega (arith, byte_of_lem t 8) in
    let e₃ : byte_of t 0 ≡ c = omega (arith, byte_of_lem t 0) in rw (e₁, e₂, e₃) refl

bytes_two :
    (t a b : ℕ)
    → a < 256
    → b < 256
    → t % 2 ^ 24 ≡ (a * 256 + b) * 256
    → byte_of t 16 ∷ byte_of t 8 ∷ [] ≡ a ∷ b ∷ []
bytes_two t a b ha hb h =
    let e₁ : byte_of t 16 ≡ a = omega (arith, byte_of_lem t 16) in
    let e₂ : byte_of t 8 ≡ b = omega (arith, byte_of_lem t 8) in rw (e₁, e₂) refl

bytes_one : (t a : ℕ) → a < 256 → t % 2 ^ 18 ≡ a * 1024 → byte_of t 10 ≡ a
bytes_one t a ha h = omega (arith, byte_of_lem t 10)

-- The decoder gives the bytes back in front of whatever it had, from any `temp`.
decode_encoded :
    (xs : List ℕ) (t : ℕ) (decoded : List ℕ)
    → All IsByte xs
    → decode_loop (base64_encode xs) 0 t decoded ≡ returned (decoded ++ xs)
unfolding base64_encode
decode_encoded [] t decoded h = unfold decode_loop in ap returned (sym (append-nil decoded))
decode_encoded (a ∷ []) t decoded (ha, _) =
    let i₂ : ℕ = bit_and a 0x03 * 16 in
    let s₂ : i₂ ≡ a % 4 * 16 = ap (λ x. x * 16) (and_3 a) in
    let b₁ : first_index a < 64 = omega (arith, first_sum a) in
    let b₂ : i₂ < 64 = omega arith in
    decode_two _ _ _ _ (digit-letter (first_index a) b₁) (digit-letter i₂ b₂) t decoded
    ∙ ap (λ x. returned (decoded ++ (x ∷ [])))
        (bytes_one _ a ha (omega (arith, join_two t (first_index a) i₂ b₁ b₂, first_sum a)))
decode_encoded (a ∷ b ∷ []) t decoded (ha, (hb, _)) =
    let i₃ : ℕ = bit_and b 0x0f * 4 in
    let s₃ : i₃ ≡ b % 16 * 4 = ap (λ x. x * 4) (and_15 b) in
    let b₁ : first_index a < 64 = omega (arith, first_sum a) in
    let b₂ : second_index a b < 64 = omega (arith, second_sum a b hb) in
    let b₃ : i₃ < 64 = omega arith in
    decode_three _ _ _ _ (digit-letter (first_index a) b₁) (digit-letter (second_index a b) b₂) _ _
      t decoded (digit-letter i₃ b₃)
    ∙ ap (λ x. returned (decoded ++ x))
        (bytes_two _ a b ha hb (
          omega (
            arith,
            join_three_shifted t (first_index a) (second_index a b) i₃ b₁ b₂ b₃,
            first_sum a,
            second_sum a b hb,
          )))
decode_encoded (a ∷ b ∷ c ∷ rest) t decoded (ha, (hb, (hc, hs))) =
    let b₁ : first_index a < 64 = omega (arith, first_sum a) in
    let b₂ : second_index a b < 64 = omega (arith, second_sum a b hb) in
    let b₃ : third_index b c < 64 = omega (arith, third_sum b c hc) in
    let b₄ : fourth_index c < 64 = omega (arith, fourth_sum c) in
    decode_four _ _ _ _ (digit-letter (first_index a) b₁) (digit-letter (second_index a b) b₂) _ _ _
      _ _ t decoded (digit-letter (third_index b c) b₃) (digit-letter (fourth_index c) b₄)
    ∙ decode_encoded rest _ _ hs
    ∙ ap (λ x. returned ((decoded ++ x) ++ rest))
        (bytes_three _ a b c ha hb hc (
          omega (
            arith,
            join_four t (first_index a) (second_index a b) (third_index b c) (fourth_index c) b₁ b₂
                b₃ b₄,
            first_sum a,
            second_sum a b hb,
            third_sum b c hc,
            fourth_sum c,
          )))
    ∙ ap returned (append_assoc decoded (a ∷ b ∷ c ∷ []) rest)

whole_groups : (xs : List ℕ) → length (base64_encode xs) % 4 ≡ 0
unfolding base64_encode
whole_groups [] = refl
whole_groups (a ∷ []) = refl
whole_groups (a ∷ b ∷ []) = refl
whole_groups (a ∷ b ∷ c ∷ rest) = omega (arith, whole_groups rest)

-- Decoding the encoding of any bytes returns these bytes, at every length modulo 3.
pub decode-encode : (xs : List ℕ) → All IsByte xs → base64_decode (base64_encode xs) ≡ returned xs
unfolding base64_decode
decode-encode xs h = rw (whole_groups xs) (decode_encoded xs 0 [] h)
