-- ===== src/Base64/Alphabet.antt =====
-- The alphabet read forwards by the encoder and backwards by the decoder.
use co_bridge.Base.{
  ℕ, zero, suc, ◌<◌, ◌≡◌, refl, Bool, true, false, ◌&&◌, none, some, nat_eq, arith,
}
use co_bridge.Base64.{letter, digit, pad}

-- Both directions at every index below a bound.
agree_below : ℕ → Bool
agree_below zero = true
agree_below (suc n) = elim (digit (letter n)) [
  | none ↦ false
  | some d ↦ nat_eq d n && agree_below n
]

agree_sound : (n i : ℕ) → agree_below n ≡ true → i < n → digit (letter i) ≡ some i
unfolding agree_below
agree_sound zero i h lt = absurd (omega arith)
agree_sound (suc n) i h lt = ground (arith, agree_sound n i)

table : agree_below 64 ≡ true
unfolding agree_below digit letter
table = refl

-- The decoder gives every letter the index at which the encoder took it.
pub digit-letter : (i : ℕ) → i < 64 → digit (letter i) ≡ some i
digit-letter i h = agree_sound 64 i table h

pub digit-pad : digit pad ≡ none
unfolding digit
digit-pad = refl
