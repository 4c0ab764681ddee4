-- ===== src/Program/Peer/Printed.antt =====
-- Which printed peers `parse_peer` of peat-sapient-bridge/src/main.rs accepts.
use Prim.Native.Char.{code}
use Prim.Native.String.append
use peat_sapient.Base.{
  ℕ, String, concat, ◌≡◌, ◌≢◌, ◌↔◌, ◌⊎◌, inl, inr, refl, some, List, [], ◌∷◌, arith, length,
}
use peat_sapient.Connection.{Outcome, done, failed}
use peat_sapient.Program.Peer.{Parsers, context, split_once, check_length, parse_parts, parse_peer}

-- No character of the text is an `@`.
abbrev pub NoAt : String → Type 0
NoAt String.[] = Unit
NoAt (String.◌∷◌ c s) = (code c ≢ b'@') × NoAt s

-- `{}@{}`, as the program prints its own address.
abbrev pub printed : String → String → String
printed id_hex addr = concat id_hex (String.◌∷◌ "@" addr)

split_once-printed :
    (id_hex addr : String)
    → NoAt id_hex
    → split_once b'@' (printed id_hex addr) ≡ some (id_hex, addr)
unfolding split_once
split_once-printed String.[] addr h = rw (append.nil (String.◌∷◌ "@" addr))
split_once-printed (String.◌∷◌ c s) addr h =
    rw (append.cons c s (String.◌∷◌ "@" addr)) (ground (arith, split_once-printed s addr h.1))

Outcome-cases {ℓ} :
    {A : Type ℓ} (o : Outcome A) → ((a : A) × (o ≡ done a)) ⊎ ((e : String) × (o ≡ failed e))
Outcome-cases (done a) = inl (a, refl)
Outcome-cases (failed e) = inr (e, refl)

module _ (lib : Parsers) where
  abbrev pub IsPeer : String → String → Type 0
  IsPeer id_hex addr =
      (raw : List ℕ) × (lib.hex_decode id_hex ≡ done raw)
      × (length raw ≡ 32)
      × (lib.socket_addr addr ≡ done tt)

  parse_parts-IsPeer :
      (id_hex addr : String)
      → (parse_parts lib id_hex addr ≡ done (id_hex, addr ∷ [])) ↔ IsPeer id_hex addr
  unfolding parse_parts context check_length
  parse_parts-IsPeer id_hex addr = (forth, back)
    where
      forth : parse_parts lib id_hex addr ≡ done (id_hex, addr ∷ []) → IsPeer id_hex addr
      forth h = elim (Outcome-cases (lib.hex_decode id_hex)) [
        | inl (raw, e) ↦ elim (Outcome-cases (lib.socket_addr addr)) [
          | inl (tt, a) ↦ (raw, e, ground arith, a)
          | inr (x, a) ↦ absurd (ground arith)
        ]
        | inr (x, e) ↦ absurd (ground arith)
      ]

      back : IsPeer id_hex addr → parse_parts lib id_hex addr ≡ done (id_hex, addr ∷ [])
      back (raw, e, n, a) = ground arith

  -- A peer printed as an identifier without `@`, an `@` and an address is accepted, and as that very
  -- identifier and address, exactly when the identifier is the hexadecimal text of 32 bytes and the
  -- address is a socket address.
  pub parse_peer-printed :
      (id_hex addr : String)
      → NoAt id_hex
      → (parse_peer lib (printed id_hex addr) ≡ done (id_hex, addr ∷ [])) ↔ IsPeer id_hex addr
  unfolding parse_peer
  parse_peer-printed id_hex addr h =
      rw (parse_peer, split_once-printed id_hex addr h) (parse_parts-IsPeer id_hex addr)
