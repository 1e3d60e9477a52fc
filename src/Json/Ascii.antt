-- ===== src/Json/Ascii.antt =====
-- Bytes of ASCII characters as a text, and the texts of base64.
use Prim.Native.Nat.{compare, Ordering}
use Prim.Native.Char.{Char, char, code, nul, IsScalar}
use native.Mathlib.Omega.{compare-eq, compare-gt}
use co_bridge.Base.{
  ℕ, zero, suc, ◌<◌, ◌≡◌, refl, String, List, [], ◌∷◌, Bool, true, ltb, arith, All, ◌&&◌,
}
use co_bridge.Base64.{base64_encode, letter, alphabet, at_or_zero}
use co_bridge.Server.Dispatch.{bytes_of, utf8}

abbrev below-IsScalar : (n : ℕ) → compare n 0xd800 ≡ Ordering.lt → IsScalar n
below-IsScalar n e = rw e tt

abbrev char_below : (n : ℕ) (o : Ordering) → compare n 0xd800 ≡ o → Char
char_below n Ordering.lt e = char n (below-IsScalar n e)
char_below n Ordering.eq e = nul
char_below n Ordering.gt e = nul

abbrev char_of : ℕ → Char
char_of n = char_below n (compare n 0xd800) refl

-- Used for ASCII only.
unfoldable pub text_of_bytes : List ℕ → String
text_of_bytes [] = String.[]
text_of_bytes (b ∷ bs) = String.◌∷◌ (char_of b) (text_of_bytes bs)

code-char_of : (n : ℕ) → n < 0x80 → code (char_of n) ≡ n
code-char_of n h = go (compare n 0xd800) refl
  where
    go : (o : Ordering) (e : compare n 0xd800 ≡ o) → code (char_below n o e) ≡ n
    go Ordering.lt e = refl
    go Ordering.eq e = let same = compare-eq n 0xd800 e in omega (arith, same, h)
    go Ordering.gt e = let above = compare-gt n 0xd800 e in omega (arith, above, h)

pub bytes_of-text_of_bytes :
    (bs : List ℕ) → All (λ b. b < 0x80) bs → bytes_of (text_of_bytes bs) ≡ bs
unfolding bytes_of text_of_bytes utf8
bytes_of-text_of_bytes [] h = refl
bytes_of-text_of_bytes (b ∷ bs) h =
    let rest = bytes_of-text_of_bytes bs h.1 in
    let small : ltb b 0x80 ≡ true = ground (arith, h.0) in rw (code-char_of b h.0, small, rest) refl

-- Each letter of base64 is an ASCII character.
unfoldable all_ascii : List ℕ → Bool
all_ascii [] = true
all_ascii (b ∷ bs) = ltb b 0x80 && all_ascii bs

at_or_zero-ascii : (bs : List ℕ) (i : ℕ) → all_ascii bs ≡ true → at_or_zero bs i < 0x80
unfolding all_ascii
at_or_zero-ascii [] i h = omega arith
at_or_zero-ascii (b ∷ bs) zero h = ground (arith, h)
at_or_zero-ascii (b ∷ bs) (suc i) h =
    let rest : all_ascii bs ≡ true = ground (arith, h) in at_or_zero-ascii bs i rest

letter-ascii : (i : ℕ) → letter i < 0x80
unfolding letter all_ascii
letter-ascii i = at_or_zero-ascii alphabet i refl

pub base64_encode-ascii : (bs : List ℕ) → All (λ b. b < 0x80) (base64_encode bs)
unfolding base64_encode
base64_encode-ascii [] = tt
base64_encode-ascii (a ∷ []) = (letter-ascii _, (letter-ascii _, (omega arith, (omega arith, tt))))
base64_encode-ascii (a ∷ b ∷ []) =
    (letter-ascii _, (letter-ascii _, (letter-ascii _, (omega arith, tt))))
base64_encode-ascii (a ∷ b ∷ c ∷ rest) =
    (letter-ascii _, (letter-ascii _, (letter-ascii _, (letter-ascii _, base64_encode-ascii rest))))
