-- ===== src/Codec/Limits.antt =====
-- What the frame limit of peat-sapient/src/codec.rs keeps out.
use mathlib.Core.List.{append_assoc}
use peat_sapient.Base.{
  ℕ, ◌+◌, ◌%◌, ◌^◌, ◌≤◌, ◌<◌, ◌≡◌, List, [], ◌++◌, some, arith, length, length-drop, drop, lt→ltb,
  le→ltb_false,
}
use peat_sapient.Error.{ok, err, frame_too_large}
use peat_sapient.Codec.{
  Prost, max_frame_bytes, u32_le, frame_length, encode_raw, decode_payload, decode,
}
use peat_sapient.Codec.RoundTrip.{frame_length-u32_le, length-header}

module _ {Msg : Type 0} (prost : Prost Msg) where
  -- The encoder does not check the limit: a body above it, short of 2^32 bytes, is framed, and the
  -- decoder refuses that frame whatever follows it, taking nothing from the buffer.
  pub decode-oversize :
      (body rest : List ℕ)
      → max_frame_bytes < length body
      → length body < 2 ^ 32
      → decode prost (encode_raw body [] ++ rest)
        ≡ (err (frame_too_large (length body) max_frame_bytes), encode_raw body [] ++ rest)
  unfolding decode encode_raw
  decode-oversize body rest big h =
      let n = length body in
      let same = append_assoc (u32_le (n % 2 ^ 32)) body rest in
      rw (
        same,
        frame_length-u32_le prost n (body ++ rest) h,
        length-header prost (n % 2 ^ 32) (body ++ rest),
        le→ltb_false (4 + length (body ++ rest)) 4 (omega arith),
        lt→ltb max_frame_bytes n big,
      )

  -- A message is only ever made of a frame whose stated length is within the limit, and exactly the
  -- frame is taken from the buffer.
  pub decode_bounds :
      (src : List ℕ) (m : Msg) (rest : List ℕ)
      → decode prost src ≡ (ok (some m), rest)
      → (frame_length src ≤ max_frame_bytes)
        × (4 + frame_length src + length rest ≡ length src)
        × (rest ≡ drop (4 + frame_length src) src)
  unfolding decode decode_payload
  decode_bounds src m rest e = ground (arith, length-drop (4 + frame_length src) src)
