-- ===== src/Examples/Frames.antt =====
-- The codec.
use peat_sapient.Base.{
  ℕ, zero, suc, ◌+◌, ◌≤◌, ◌≡◌, refl, ap, none, List, [], ◌∷◌, ◌++◌, arith, length, drop,
}
use peat_sapient.Error.{ok}
use peat_sapient.Codec.{Prost, max_frame_bytes, frame_length, encode, encode_raw, decode}
use peat_sapient.Codec.RoundTrip.{Decodes, encode_all, Decodes-encode_all, decode_partial}
use peat_sapient.Codec.Limits.{decode_bounds}

-- Messages that are their own bytes.
abbrev bytes : Prost (List ℕ)
bytes = record { encode_to_vec = λ m. m; decode = λ b. ok b }

Decodes-encode_all_example :
    Decodes bytes
      ((7 ∷ 8 ∷ []) ∷ (9 ∷ []) ∷ [])
      (encode_all bytes ((7 ∷ 8 ∷ []) ∷ (9 ∷ []) ∷ []) ++ 2 ∷ [])
      (2 ∷ [])
Decodes-encode_all_example =
    Decodes-encode_all bytes ((7 ∷ 8 ∷ []) ∷ (9 ∷ []) ∷ []) (2 ∷ [])
      ((refl, omega arith), ((refl, omega arith), tt))

decode_partial_example : decode bytes (2 ∷ 0 ∷ 0 ∷ 0 ∷ 7 ∷ []) ≡ (ok none, 2 ∷ 0 ∷ 0 ∷ 0 ∷ 7 ∷ [])
unfolding encode_raw
decode_partial_example =
    decode_partial bytes (7 ∷ 8 ∷ []) (2 ∷ 0 ∷ 0 ∷ 0 ∷ 7 ∷ []) (8 ∷ []) (omega arith) refl (λ e. cc)

abbrev frame : List ℕ
frame = 2 ∷ 0 ∷ 0 ∷ 0 ∷ 7 ∷ 8 ∷ 5 ∷ []

decode_bounds_example :
    (frame_length frame ≤ max_frame_bytes)
    × (4 + frame_length frame + 1 ≡ 7)
    × (5 ∷ [] ≡ drop (4 + frame_length frame) frame)
unfolding decode frame_length peat_sapient.Codec.decode_payload
decode_bounds_example = decode_bounds bytes frame (7 ∷ 8 ∷ []) (5 ∷ []) refl

unfoldable zeros : ℕ → List ℕ
zeros zero = []
zeros (suc n) = 0 ∷ zeros n

length-zeros : (n : ℕ) → length (zeros n) ≡ n
unfolding zeros
length-zeros zero = refl
length-zeros (suc n) = ap suc (length-zeros n)
