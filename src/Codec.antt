-- ===== src/Codec.antt =====
-- peat-sapient/src/codec.rs: frames of a little-endian 4-byte length and a protobuf body. A buffer
-- is a list of bytes, each below 256; `reserve` changes only the capacity of a buffer, so it has no
-- place here. The protobuf library is the parameter `prost`.
pub mod RoundTrip
pub mod Limits
use peat_sapient.Base.{
  ℕ, ◌+◌, ◌*◌, ◌/◌, ◌%◌, ◌^◌, String, List, [], ◌∷◌, ◌++◌, Option, none, some, ltb, if◌then◌else◌,
  length, take, drop,
}
use peat_sapient.Error.{SapientError, Result, ok, err, frame_too_large}

-- `prost::Message` for one type of messages: `encode_to_vec` and `decode`.
pub record Prost (Msg : Type 0) : Type 0 where
  pub encode_to_vec : Msg → List ℕ
  pub decode : List ℕ → Result Msg

abbrev pub max_frame_bytes : ℕ
max_frame_bytes = 16 * 1024 * 1024

-- `put_u32_le` and `u32::from_le_bytes`.
unfoldable pub u32_le : ℕ → List ℕ
u32_le n = n % 256 ∷ n / 256 % 256 ∷ n / 65536 % 256 ∷ n / 16777216 % 256 ∷ []

unfoldable pub from_u32_le : ℕ → ℕ → ℕ → ℕ → ℕ
from_u32_le a b c d = a + 256 * b + 65536 * c + 16777216 * d

-- `Encoder<Vec<u8>>`; `payload.len() as u32` wraps.
unfoldable pub encode_raw : List ℕ → List ℕ → List ℕ
unfolding u32_le
encode_raw payload dst = dst ++ (u32_le (length payload % 2 ^ 32) ++ payload)

-- `[src[0], src[1], src[2], src[3]]`; it is read only of a buffer of at least four bytes.
unfoldable pub frame_length : List ℕ → ℕ
unfolding from_u32_le
frame_length (a ∷ b ∷ c ∷ d ∷ rest) = from_u32_le a b c d
frame_length _ = 0

module _ {Msg : Type 0} (prost : Prost Msg) where
  -- `Encoder<SapientMessage>`.
  unfoldable pub encode : Msg → List ℕ → List ℕ
  encode msg dst =
      let payload = prost.encode_to_vec msg in dst ++ (u32_le (length payload % 2 ^ 32) ++ payload)

  unfoldable pub decode_payload : Result Msg → List ℕ → Result (Option Msg) × List ℕ
  decode_payload (ok msg) rest = (ok (some msg), rest)
  decode_payload (err e) rest = (err e, rest)

  -- The result, and what is left of the buffer.
  unfoldable pub decode : List ℕ → Result (Option Msg) × List ℕ
  decode src =
      let len = frame_length src in
      if ltb (length src) 4
      then (ok none, src)
      else if ltb max_frame_bytes len
      then (err (frame_too_large len max_frame_bytes), src)
      else if ltb (length src) (4 + len)
      then (ok none, src)
      else decode_payload (prost.decode (take len (drop 4 src))) (drop (4 + len) src)
