-- ===== src/Codec/RoundTrip.antt =====
-- Frames of peat-sapient/src/codec.rs that are encoded and decoded again.
use mathlib.Core.List.{append_assoc}
use peat_sapient.Base.{
  ℕ, suc, ◌+◌, ◌/◌, ◌%◌, ◌^◌, ◌≤◌, ◌<◌, ◌≡◌, ◌≢◌, ap, ◌∙◌, List, [], ◌∷◌, ◌++◌, none, some, arith,
  ltb, le→ltb_false, lt→ltb, Bool-cases, inl, inr, All, length, length-append, length-pos, drop,
  take-append, drop-append,
}
use peat_sapient.Error.{ok}
use peat_sapient.Codec.{
  Prost, max_frame_bytes, u32_le, from_u32_le, frame_length, encode_raw, encode, decode_payload,
  decode,
}

from-u32_le :
    (n : ℕ)
    → n < 2 ^ 32
    → from_u32_le (n % 256) (n / 256 % 256) (n / 65536 % 256) (n / 16777216 % 256) ≡ n
unfolding from_u32_le
from-u32_le n h = omega arith

module _ {Msg : Type 0} (prost : Prost Msg) where
  pub frame_length-u32_le :
      (n : ℕ) (rest : List ℕ) → n < 2 ^ 32 → frame_length (u32_le (n % 2 ^ 32) ++ rest) ≡ n
  unfolding frame_length u32_le
  frame_length-u32_le n rest h = omega arith

  pub length-header : (n : ℕ) (tail : List ℕ) → length (u32_le n ++ tail) ≡ 4 + length tail
  unfolding u32_le
  length-header n tail = omega arith

  drop-header : (n m : ℕ) (tail : List ℕ) → drop (4 + m) (u32_le n ++ tail) ≡ drop m tail
  unfolding u32_le
  drop-header n m tail = let e : 4 + m ≡ suc (suc (suc (suc m))) = omega arith in rw e

  -- With a whole frame at the head of the buffer its body is decoded, and the rest stays.
  pub decode-frame :
      (body rest : List ℕ)
      → length body ≤ max_frame_bytes
      → decode prost (u32_le (length body % 2 ^ 32) ++ (body ++ rest))
        ≡ decode_payload prost (prost.decode body) rest
  unfolding decode
  decode-frame body rest h =
      let n = length body in
      let src = u32_le (n % 2 ^ 32) ++ (body ++ rest) in
      let size : length src ≡ 4 + (n + length rest) =
        omega (arith, length-header (n % 2 ^ 32) (body ++ rest), length-append body rest) in
      let prefix : frame_length src ≡ n = frame_length-u32_le n (body ++ rest) (omega arith) in
      rw
        (
          prefix,
          size,
          le→ltb_false (4 + (n + length rest)) 4 (omega arith),
          le→ltb_false max_frame_bytes n h,
          le→ltb_false (4 + (n + length rest)) (4 + n) (omega arith),
          drop-header (n % 2 ^ 32) n (body ++ rest),
          drop-header (n % 2 ^ 32) 0 (body ++ rest),
        )
        (rw (take-append body rest, drop-append body rest))

  -- A message whose body is within the limit is decoded again from what `encode` appended, and what
  -- follows in the buffer is left alone.
  pub decode-encode :
      (msg : Msg) (rest : List ℕ)
      → prost.decode (prost.encode_to_vec msg) ≡ ok msg
      → length (prost.encode_to_vec msg) ≤ max_frame_bytes
      → decode prost (encode prost msg [] ++ rest) ≡ (ok (some msg), rest)
  unfolding encode decode_payload
  decode-encode msg rest law h =
      let body = prost.encode_to_vec msg in
      ap (decode prost) (append_assoc (u32_le (length body % 2 ^ 32)) body rest)
      ∙ decode-frame body rest h
      ∙ rw law

  tail-prefix :
      (n : ℕ) (body p q : List ℕ)
      → p ++ q ≡ u32_le n ++ body
      → 4 ≤ length p
      → (p' : List ℕ) × (p ≡ u32_le n ++ p') × (p' ++ q ≡ body)
  unfolding u32_le
  tail-prefix n body (a ∷ b ∷ c ∷ d ∷ p) q e h = (p, ground arith, ground arith)
  tail-prefix n body [] q e h = absurd (omega arith)
  tail-prefix n body (a ∷ []) q e h = absurd (omega arith)
  tail-prefix n body (a ∷ b ∷ []) q e h = absurd (omega arith)
  tail-prefix n body (a ∷ b ∷ c ∷ []) q e h = absurd (omega arith)

  -- While a part of a frame is missing, `decode` waits for more and takes nothing from the buffer.
  pub decode_partial :
      (body p q : List ℕ)
      → length body ≤ max_frame_bytes
      → p ++ q ≡ encode_raw body []
      → q ≢ []
      → decode prost p ≡ (ok none, p)
  unfolding encode_raw decode
  decode_partial body p q h e more = elim (Bool-cases (ltb (length p) 4)) [
    | inl short ↦ rw (decode, short)
    | inr long ↦
        let n = length body in
        let (p', split, rest) = tail-prefix (n % 2 ^ 32) body p q e (ground arith) in
        let prefix : frame_length p ≡ n = rw split (frame_length-u32_le n p' (omega arith)) in
        let fewer : length p < 4 + n = omega (
          arith,
          ap length split,
          ap length rest,
          length-header (n % 2 ^ 32) p',
          length-append p' q,
          length-pos q more,
        ) in
        rw (decode, long, prefix, le→ltb_false max_frame_bytes n h, lt→ltb _ _ fewer)
  ]

  -- `Decodes ms src rest`: repeated calls of `decode` on the buffer `src` return the messages `ms`
  -- one after the other and leave `rest`.
  pub data Decodes : List Msg → List ℕ → List ℕ → Type 0 where
    done : {src : List ℕ} → Decodes [] src src
    next :
        {m : Msg} {ms : List Msg} {src src' rest : List ℕ}
        → decode prost src ≡ (ok (some m), src')
        → Decodes ms src' rest
        → Decodes (m ∷ ms) src rest

  -- The frames of a list of messages, one after the other.
  abbrev pub encode_all : List Msg → List ℕ
  encode_all [] = []
  encode_all (m ∷ ms) = encode prost m [] ++ encode_all ms

  abbrev pub Sendable : Msg → Type 0
  Sendable m =
      (prost.decode (prost.encode_to_vec m) ≡ ok m)
      × (length (prost.encode_to_vec m) ≤ max_frame_bytes)

  -- Messages sent one after the other are received as they were sent and in their order, and bytes
  -- behind the last frame stay in the buffer.
  pub Decodes-encode_all :
      (ms : List Msg) (rest : List ℕ) → All Sendable ms → Decodes ms (encode_all ms ++ rest) rest
  Decodes-encode_all [] rest h = done
  Decodes-encode_all (m ∷ ms) rest h =
      next
        (ap (decode prost) (append_assoc (encode prost m []) (encode_all ms) rest)
          ∙ decode-encode m (encode_all ms ++ rest) h.0.0 h.0.1)
        (Decodes-encode_all ms rest h.1)
