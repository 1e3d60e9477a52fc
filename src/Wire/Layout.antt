-- ===== src/Wire/Layout.antt =====
-- The shape of what the writers produce: its length, its range, and what the readers make of it.
use co_bridge.Base.{
  ℕ, zero, suc, ◌+◌, ◌^◌, ◌<◌, ◌≤◌, ◌≡◌, refl, ap, List, [], ◌∷◌, ◌++◌, length, take, drop, All,
  length-append, arith,
}
use Prim.Native.Nat.add
use co_bridge.Wire.{read_uint32_le, write_uint32_le, ServiceResponse, response_size, write_response}

abbrev pub IsByte : ℕ → Type 0
IsByte b = b < 256

-- The four bytes of a `uint32_t` give it back, whatever follows them.
pub read_uint32_le-write :
    (v : ℕ) (rest : List ℕ) → v < 2 ^ 32 → read_uint32_le (write_uint32_le v ++ rest) ≡ v
unfolding read_uint32_le write_uint32_le
read_uint32_le-write v rest h = omega arith

pub length-write_uint32_le : (v : ℕ) → length (write_uint32_le v) ≡ 4
unfolding write_uint32_le
length-write_uint32_le v = refl

pub write_uint32_le-IsByte : (v : ℕ) → All IsByte (write_uint32_le v)
unfolding write_uint32_le
write_uint32_le-IsByte v = omega arith

module _ {ℓ} {A : Type ℓ} where
  pub drop-add : (m n : ℕ) (xs : List A) → drop (m + n) xs ≡ drop n (drop m xs)
  drop-add zero n xs = rw add.zero
  drop-add (suc m) n [] = rw add.suc (nothing_left n)
    where
      nothing_left : (k : ℕ) → [] ≡ drop {A = A} k []
      nothing_left zero = refl
      nothing_left (suc k) = refl
  drop-add (suc m) n (x ∷ xs) = rw add.suc (drop-add m n xs)

  pub take-append-drop : (n : ℕ) (xs : List A) → take n xs ++ drop n xs ≡ xs
  take-append-drop zero xs = refl
  take-append-drop (suc n) [] = refl
  take-append-drop (suc n) (x ∷ xs) = rw (take-append-drop n xs)

  pub length-take : (n : ℕ) (xs : List A) → n ≤ length xs → length (take n xs) ≡ n
  length-take zero xs h = refl
  length-take (suc n) [] h = absurd (omega arith)
  length-take (suc n) (x ∷ xs) h = ap suc (length-take n xs (omega arith))

  pub take-length-append : (xs ys : List A) → take (length xs) (xs ++ ys) ≡ xs
  take-length-append [] ys = refl
  take-length-append (x ∷ xs) ys = rw (take-length-append xs ys)

  pub drop-length-append : (xs ys : List A) → drop (length xs) (xs ++ ys) ≡ ys
  drop-length-append [] ys = refl
  drop-length-append (x ∷ xs) ys = drop-length-append xs ys

-- The buffer of `size()` bytes that a sender allocates is filled exactly.
pub length-write_response : (r : ServiceResponse) → length (write_response r) ≡ response_size r
unfolding write_response write_uint32_le response_size
length-write_response r = omega (arith, length-append r.encoding r.serv_data)
