-- ===== src/Base64.antt =====
-- base64.cpp. Texts and data are lists of bytes; a `char` of a text is its byte, which is never
-- negative where a branch of the decoder takes it.
pub mod Alphabet
pub mod Groups
pub mod RoundTrip
use Prim.Native.Nat.{bit_and, bit_or}
use co_bridge.Base.{
  ℕ, zero, suc, ◌+◌, ◌-◌, ◌*◌, ◌/◌, ◌%◌, ◌^◌, List, [], ◌∷◌, ◌++◌, Option, none, some, leb, nat_eq,
  if◌then◌else◌, ◌&&◌, length,
}
use co_bridge.Base.Errors.{standard, text}
use co_bridge.Base.Action.{Outcome, returned, thrown}

-- ALPHABET
abbrev pub alphabet : List ℕ
alphabet =
    0x41 ∷ 0x42 ∷ 0x43 ∷ 0x44 ∷ 0x45 ∷ 0x46 ∷ 0x47 ∷ 0x48 ∷ 0x49 ∷ 0x4a ∷ 0x4b ∷ 0x4c ∷ 0x4d ∷ 0x4e
    ∷ 0x4f ∷ 0x50 ∷ 0x51 ∷ 0x52 ∷ 0x53 ∷ 0x54 ∷ 0x55 ∷ 0x56 ∷ 0x57 ∷ 0x58 ∷ 0x59 ∷ 0x5a ∷ 0x61
    ∷ 0x62 ∷ 0x63 ∷ 0x64 ∷ 0x65 ∷ 0x66 ∷ 0x67 ∷ 0x68 ∷ 0x69 ∷ 0x6a ∷ 0x6b ∷ 0x6c ∷ 0x6d ∷ 0x6e
    ∷ 0x6f ∷ 0x70 ∷ 0x71 ∷ 0x72 ∷ 0x73 ∷ 0x74 ∷ 0x75 ∷ 0x76 ∷ 0x77 ∷ 0x78 ∷ 0x79 ∷ 0x7a ∷ 0x30
    ∷ 0x31 ∷ 0x32 ∷ 0x33 ∷ 0x34 ∷ 0x35 ∷ 0x36 ∷ 0x37 ∷ 0x38 ∷ 0x39 ∷ 0x2b ∷ 0x2f ∷ []

-- An index behind the alphabet, which no expression below reaches, gives 0.
abbrev pub at_or_zero : List ℕ → ℕ → ℕ
at_or_zero [] i = 0
at_or_zero (x ∷ xs) zero = x
at_or_zero (x ∷ xs) (suc i) = at_or_zero xs i

unfoldable pub letter : ℕ → ℕ
letter i = at_or_zero alphabet i

abbrev pub pad : ℕ
pad = 0x3d

-- The four indices of three bytes: shifts and masks of the source.
unfoldable pub first_index : ℕ → ℕ
first_index a = a / 4

unfoldable pub second_index : ℕ → ℕ → ℕ
second_index a b = bit_or (bit_and a 0x03 * 16) (b / 16)

unfoldable pub third_index : ℕ → ℕ → ℕ
third_index b c = bit_or (bit_and b 0x0f * 4) (c / 64)

unfoldable pub fourth_index : ℕ → ℕ
fourth_index c = bit_and c 0x3f

unfoldable pub base64_encode : List ℕ → List ℕ
base64_encode (a ∷ b ∷ c ∷ rest) =
    letter (first_index a)
    ∷ letter (second_index a b)
    ∷ letter (third_index b c)
    ∷ letter (fourth_index c)
    ∷ base64_encode rest
base64_encode (a ∷ b ∷ []) =
    letter (first_index a) ∷ letter (second_index a b) ∷ letter (bit_and b 0x0f * 4) ∷ pad ∷ []
base64_encode (a ∷ []) = letter (first_index a) ∷ letter (bit_and a 0x03 * 16) ∷ pad ∷ pad ∷ []
base64_encode [] = []

-- What the branches of the decoder or into `temp`: `none` for a character that is no letter.
unfoldable pub digit : ℕ → Option ℕ
digit c =
    if leb 0x41 c && leb c 0x5a
    then some (c - 0x41)
    else if leb 0x61 c && leb c 0x7a
    then some (c - 0x47)
    else if leb 0x30 c && leb c 0x39
    then some (c + 0x04)
    else if nat_eq c 0x2b
    then some 0x3e
    else if nat_eq c 0x2f
    then some 0x3f
    else none

-- `temp <<= 6` of a `uint32_t`
unfoldable pub shifted : ℕ → ℕ
shifted temp = temp * 64 % 2 ^ 32

abbrev pub byte_of : ℕ → ℕ → ℕ
byte_of temp k = bit_and (temp / 2 ^ k) 0xff

-- The two loops of the decoder as one over the characters: `i` characters of the group are read,
-- and `decoded` is what is pushed so far. A pad ends the run, by what remains.
unfoldable pub decode_loop : List ℕ → ℕ → ℕ → List ℕ → Outcome (List ℕ)
decode_loop [] i temp decoded = returned decoded
decode_loop (c ∷ rest) i temp decoded =
    let t = shifted temp in
    elim (digit c) [
      | some d ↦
          let t' = bit_or t d in
          let inner = decode_loop rest (i + 1) t' decoded in
          let outer =
            decode_loop rest 0 t' (decoded ++ (byte_of t' 16 ∷ byte_of t' 8 ∷ byte_of t' 0 ∷ [])) in
          if nat_eq i 3 then outer else inner
      | none ↦
          if nat_eq c pad
          then (if nat_eq (length rest) 0
              then returned (decoded ++ (byte_of t 16 ∷ byte_of t 8 ∷ []))
              else if nat_eq (length rest) 1
              then returned (decoded ++ (byte_of t 10 ∷ []))
              else thrown (standard (text "Invalid padding in base64!")))
          else thrown (standard (text "Invalid character in base64!"))
    ]

unfoldable pub base64_decode : List ℕ → Outcome (List ℕ)
base64_decode input =
    if nat_eq (length input % 4) 0
    then decode_loop input 0 0 []
    else thrown (standard (text "Invalid base64 length!"))
