-- ===== src/Wire/RoundTrip.antt =====
-- `ServiceResponse::write` and `ServiceResponse::read` against each other, and the errors of `read`.
use co_bridge.Base.{
  true, false, ℕ, zero, suc, ◌+◌, ◌-◌, ◌%◌, ◌^◌, ◌<◌, ◌≤◌, ◌≡◌, refl, ◌∙◌, List, [], ◌∷◌, ◌++◌, ltb,
  if◌then◌else◌, length, take, drop, All, arith, inl, inr, ◌⊎◌,
}
use co_bridge.Base.Errors.{Exception, standard, encoding_too_large, encoding_exceeds}
use co_bridge.Base.Action.{Outcome, returned, thrown}
use co_bridge.Wire.{
  read_uint32_le, write_uint32_le, ServiceResponse, response_size, write_response, read_response,
  max_encoding_length,
}
use co_bridge.Wire.Layout.{
  IsByte, drop-add, take-append-drop, length-take, take-length-append, drop-length-append,
  length-write_response,
}

-- The fields that fit the wire: 32-bit ids, and an encoding that `read` accepts.
pub record FitsWire (r : ServiceResponse) : Type 0 where
  pub service_id_fits : r.service_id < 2 ^ 32
  pub call_id_fits : r.call_id < 2 ^ 32
  pub encoding_fits : length r.encoding ≤ max_encoding_length

-- The length field of a written message, read back.
written_encoding_length :
    (r : ServiceResponse)
    → length r.encoding < 2 ^ 32
    → read_uint32_le (drop 8 (write_response r)) ≡ length r.encoding
unfolding write_response write_uint32_le read_uint32_le
written_encoding_length r h = omega arith

written_tail : (r : ServiceResponse) → drop 12 (write_response r) ≡ r.encoding ++ r.serv_data
unfolding write_response write_uint32_le
written_tail r = refl

written_ids :
    (r : ServiceResponse)
    → FitsWire r
    → (read_uint32_le (write_response r) ≡ r.service_id)
      × (read_uint32_le (drop 4 (write_response r)) ≡ r.call_id)
unfolding write_response write_uint32_le read_uint32_le
written_ids r f = omega arith

-- What `read` does on a buffer whose length field is `n`, by cases of its three tests.
read_response_by_length :
    (bytes : List ℕ) (n : ℕ)
    → read_uint32_le (drop 8 bytes) ≡ n
    → 12 ≤ length bytes
    → read_response bytes ≡ (
        if ltb max_encoding_length n
        then thrown (standard (encoding_too_large n))
        else if ltb (length bytes) (12 + n)
        then thrown (standard (encoding_exceeds n (length bytes - 12)))
        else returned (record {
          service_id = read_uint32_le bytes;
          call_id = read_uint32_le (drop 4 bytes);
          encoding = take n (drop 12 bytes);
          serv_data = drop (12 + n) bytes;
        }))
unfolding read_response
read_response_by_length bytes n e h = ground arith

-- A written message is read back whole, if its ids have 32 bits and its encoding has at most 256
-- bytes.
pub read-write : (r : ServiceResponse) → FitsWire r → read_response (write_response r) ≡ returned r
unfolding response_size
read-write r f =
    let n : ℕ = length r.encoding in
    let size = length-write_response r in
    let small : ltb max_encoding_length n ≡ false = ground (arith, f.encoding_fits) in
    let whole : ltb (length (write_response r)) (12 + n) ≡ false = ground (arith, size) in
    read_response_by_length (write_response r) n
      (written_encoding_length r (omega (arith, f.encoding_fits))) (omega (arith, size))
    ∙ rw (
      small,
      whole,
      drop-add 12 n (write_response r),
      written_tail r,
      (written_ids r f).0,
      (written_ids r f).1,
      take-length-append r.encoding r.serv_data,
      drop-length-append r.encoding r.serv_data,
    )

-- A written message with an encoding of more than 256 and less than 2 ^ 32 bytes is refused by
-- `read`, with the encoding's length.
pub read-write_long :
    (r : ServiceResponse)
    → max_encoding_length < length r.encoding
    → length r.encoding < 2 ^ 32
    → read_response (write_response r) ≡ thrown (standard (encoding_too_large (length r.encoding)))
unfolding response_size
read-write_long r long fits =
    let size = length-write_response r in
    let large : ltb max_encoding_length (length r.encoding) ≡ true = ground arith in
    read_response_by_length (write_response r) (length r.encoding) (written_encoding_length r fits)
      (omega (arith, size))
    ∙ rw large

-- What `read` accepts: at least 12 bytes, a length field of at most 256 that fits the rest.
pub record IsReadable (bytes : List ℕ) : Type 0 where
  pub header : 12 ≤ length bytes
  pub reasonable : read_uint32_le (drop 8 bytes) ≤ max_encoding_length
  pub enough : 12 + read_uint32_le (drop 8 bytes) ≤ length bytes

pub read-IsReadable :
    (bytes : List ℕ) (r : ServiceResponse) → read_response bytes ≡ returned r → IsReadable bytes
unfolding read_response
read-IsReadable bytes r e = ground arith

-- The message that a readable buffer holds.
abbrev pub message_of : List ℕ → ServiceResponse
message_of bytes =
    let n : ℕ = read_uint32_le (drop 8 bytes) in
    record {
      service_id = read_uint32_le bytes;
      call_id = read_uint32_le (drop 4 bytes);
      encoding = take n (drop 12 bytes);
      serv_data = drop (12 + n) bytes;
    }

readable_returns :
    (bytes : List ℕ) → IsReadable bytes → read_response bytes ≡ returned (message_of bytes)
readable_returns bytes h =
    let n : ℕ = read_uint32_le (drop 8 bytes) in
    let small : ltb max_encoding_length n ≡ false = ground (arith, h.reasonable) in
    let whole : ltb (length bytes) (12 + n) ≡ false = ground (arith, h.enough) in
    read_response_by_length bytes n refl h.header ∙ rw (small, whole)

-- On a readable buffer `read` returns, and on any other it throws: readable is a buffer of at least
-- 12 bytes whose length field is at most 256 and fits the rest.
pub read_decides :
    (bytes : List ℕ)
    → (IsReadable bytes × ((r : ServiceResponse) × (read_response bytes ≡ returned r)))
      ⊎ (¬ IsReadable bytes × ((x : Exception) × (read_response bytes ≡ thrown x)))
read_decides bytes = go (read_response bytes) refl
  where
    go :
        (o : Outcome ServiceResponse)
        → read_response bytes ≡ o
        → (IsReadable bytes × ((r : ServiceResponse) × (read_response bytes ≡ returned r)))
          ⊎ (¬ IsReadable bytes × ((x : Exception) × (read_response bytes ≡ thrown x)))
    go (returned r) e = inl (read-IsReadable bytes r e, (r, e))
    go (thrown x) e = inr (λ h. cc (e, readable_returns bytes h), (x, e))

-- Four bytes of a buffer, read as a word and written again.
rewrite_word :
    (xs : List ℕ)
    → 4 ≤ length xs
    → All IsByte xs
    → write_uint32_le (read_uint32_le xs) ++ drop 4 xs ≡ xs
unfolding write_uint32_le read_uint32_le
rewrite_word [] h b = absurd (omega arith)
rewrite_word (x ∷ []) h b = absurd (omega arith)
rewrite_word (x ∷ y ∷ []) h b = absurd (omega arith)
rewrite_word (x ∷ y ∷ z ∷ []) h b = absurd (omega arith)
rewrite_word (x ∷ y ∷ z ∷ w ∷ xs) h (p, (q, (r, (s, b)))) = ground arith

All-drop : (n : ℕ) (xs : List ℕ) → All IsByte xs → All IsByte (drop n xs)
All-drop zero xs b = b
All-drop (suc n) [] b = b
All-drop (suc n) (x ∷ xs) b = All-drop n xs b.1

length-drop : (n : ℕ) (xs : List ℕ) → length (drop n xs) ≡ length xs - n
length-drop zero xs = omega arith
length-drop (suc n) [] = omega arith
length-drop (suc n) (x ∷ xs) = omega (arith, length-drop n xs)

write-message_of :
    (bytes : List ℕ)
    → All IsByte bytes
    → IsReadable bytes
    → write_response (message_of bytes) ≡ bytes
unfolding write_response
write-message_of bytes b h =
    let n : ℕ = read_uint32_le (drop 8 bytes) in
    let taken : length (take n (drop 12 bytes)) ≡ n =
      length-take n (drop 12 bytes) (omega (arith, h.enough, length-drop 12 bytes)) in
    let narrow : n % 2 ^ 32 ≡ n = omega (arith, h.reasonable) in
    rw (
      taken,
      narrow,
      drop-add 12 n bytes,
      take-append-drop n (drop 12 bytes),
      drop-add 8 4 bytes,
      rewrite_word (drop 8 bytes) (omega (arith, h.header, length-drop 8 bytes))
          (All-drop 8 bytes b),
      drop-add 4 4 bytes,
      rewrite_word (drop 4 bytes) (omega (arith, h.header, length-drop 4 bytes))
          (All-drop 4 bytes b),
      rewrite_word bytes (omega (arith, h.header)) b,
    )

-- Writing what was read from a buffer of bytes gives the buffer back: no byte is lost or read twice.
write-read :
    (bytes : List ℕ) (r : ServiceResponse)
    → All IsByte bytes
    → read_response bytes ≡ returned r
    → write_response r ≡ bytes
write-read bytes r b e =
    let h = read-IsReadable bytes r e in
    let is_message : message_of bytes ≡ r = cc (readable_returns bytes h, e) in
    rw (← is_message) (write-message_of bytes b h)
