-- ===== src/Wire.antt =====
-- Binary frames: the little-endian integers of serialization.hpp, and the service messages of
-- serialization.cpp. A buffer is the list of its bytes.
pub mod Layout
pub mod RoundTrip
use co_bridge.Base.{
  ℕ, zero, suc, ◌+◌, ◌-◌, ◌*◌, ◌/◌, ◌%◌, ◌^◌, List, [], ◌∷◌, ◌++◌, ltb, if◌then◌else◌, length, take,
  drop,
}
use co_bridge.Base.Errors.{
  standard, response_too_short, encoding_too_large, encoding_exceeds, offset_exceeds,
}
use co_bridge.Base.Action.{Outcome, returned, thrown}

-- A byte of the buffer; a read behind its end, which the callers' length tests rule out, gives 0.
abbrev pub byte_at : List ℕ → ℕ → ℕ
byte_at [] i = 0
byte_at (x ∷ xs) zero = x
byte_at (x ∷ xs) (suc i) = byte_at xs i

unfoldable pub read_uint32_le : List ℕ → ℕ
read_uint32_le buf =
    byte_at buf 0 + byte_at buf 1 * 0x100 + byte_at buf 2 * 0x10000 + byte_at buf 3 * 0x1000000

unfoldable pub write_uint32_le : ℕ → List ℕ
write_uint32_le val =
    val % 0x100 ∷ val / 0x100 % 0x100 ∷ val / 0x10000 % 0x100 ∷ val / 0x1000000 % 0x100 ∷ []

unfoldable pub write_uint64_le : ℕ → List ℕ
unfolding write_uint32_le
write_uint64_le val = write_uint32_le (val % 2 ^ 32) ++ write_uint32_le (val / 2 ^ 32)

-- `ServiceRequest` is another name of this type.
pub record ServiceResponse : Type 0 where
  pub service_id : ℕ
  pub call_id : ℕ
  pub encoding : List ℕ
  pub serv_data : List ℕ

unfoldable pub response_size : ServiceResponse → ℕ
response_size r = 4 + 4 + 4 + length r.encoding + length r.serv_data

abbrev pub max_encoding_length : ℕ
max_encoding_length = 256

-- `ServiceResponse::read(data, data_length)`, where `data_length` is the length of `data`.
unfoldable pub read_response : List ℕ → Outcome ServiceResponse
unfolding read_uint32_le
read_response bytes =
    let data_length = length bytes in
    if ltb data_length 12
    then thrown (standard (response_too_short data_length))
    else let encoding_length = read_uint32_le (drop 8 bytes) in
      if ltb max_encoding_length encoding_length
      then thrown (standard (encoding_too_large encoding_length))
      else if ltb data_length (12 + encoding_length)
      then thrown (standard (encoding_exceeds encoding_length (data_length - 12)))
      else if ltb data_length (12 + encoding_length)
      then thrown (standard (offset_exceeds (12 + encoding_length) data_length))
      else returned (record {
        service_id = read_uint32_le bytes;
        call_id = read_uint32_le (drop 4 bytes);
        encoding = take encoding_length (drop 12 bytes);
        serv_data = drop (12 + encoding_length) bytes;
      })

-- `ServiceResponse::write`. The cast of the encoding's size to `uint32_t` wraps.
unfoldable pub write_response : ServiceResponse → List ℕ
write_response r =
    write_uint32_le r.service_id
    ++ (write_uint32_le r.call_id
        ++ (write_uint32_le (length r.encoding % 2 ^ 32) ++ (r.encoding ++ r.serv_data)))
