-- ===== src/Pdu/Ucs2/RoundTrip.antt =====
-- Texts through UCS2.
use sms_gate.Prelude.{
  ℕ, ◌+◌, ◌-◌, ◌*◌, ◌/◌, ◌%◌, ◌≤◌, ◌<◌, ◌≡◌, refl, ap, ◌∙◌, ◌⊎◌, inl, inr, true, false, List, [],
  ◌∷◌, ◌++◌, ltb, leb, length, length-append, All, arith, Bool-cases,
}
use sms_gate.Pdu.Ucs2.{
  is_surrogate, utf16_units, put_units, utf16_encode, encode_ucs2, get_units, utf16_decode,
  decode_ucs2,
}

-- The runes that a Go string holds.
abbrev pub IsRune : ℕ → Type 0
IsRune r = (r < 0xd800) ⊎ ((0xe000 ≤ r) × (r ≤ 0x10ffff))

abbrev pub IsUnit16 : ℕ → Type 0
IsUnit16 u = u < 0x10000

get_units-put_units : (units : List ℕ) → All IsUnit16 units → get_units (put_units units) ≡ units
unfolding get_units put_units
get_units-put_units [] h = refl
get_units-put_units (u ∷ units) (hu, h) =
    let e : u / 256 % 256 * 256 + u % 256 ≡ u = omega arith in rw (e, get_units-put_units units h)

-- The units of one rune in front of others.
record Reads (r : ℕ) (units : List ℕ) : Type 0 where
  decoded : (rest : List ℕ) → utf16_decode (units ++ rest) ≡ r ∷ utf16_decode rest
  units16 : (rest : List ℕ) → All IsUnit16 rest → All IsUnit16 (units ++ rest)

plain_decode :
    (r : ℕ) (rest : List ℕ)
    → is_surrogate r ≡ false
    → utf16_decode (r ∷ rest) ≡ r ∷ utf16_decode rest
unfolding utf16_decode
plain_decode r [] h = ground arith
plain_decode r (v ∷ rest) h = ground arith

pair_decode :
    (u v : ℕ) (rest : List ℕ)
    → u < 0x400
    → v < 0x400
    → utf16_decode ((0xd800 + u) ∷ (0xdc00 + v) ∷ rest)
      ≡ (u * 0x400 + v + 0x10000) ∷ utf16_decode rest
unfolding utf16_decode
pair_decode u v rest h k = ground arith

utf16_units-Reads : (r : ℕ) → IsRune r → Reads r (utf16_units r)
unfolding utf16_units
utf16_units-Reads r h = elim (Bool-cases (ltb r 0x10000)) [
  | inl small ↦
      let plain : is_surrogate r ≡ false = ground arith in
      rw (small, plain)
        (record {
          decoded = λ rest. plain_decode r rest plain;
          units16 = λ rest all. (ground arith, all);
        })
  | inr large ↦
      let valid : leb r 0x10ffff ≡ true = ground arith in
      rw (large, valid)
        (record {
          decoded = λ rest.
              pair_decode ((r - 0x10000) / 0x400) ((r - 0x10000) % 0x400) rest (ground arith)
                (omega arith)
              ∙ ap (λ (x : ℕ). x ∷ utf16_decode rest) (ground arith);
          units16 = λ rest all. (ground arith, (ground arith, all));
        })
]

utf16_encode-Reads :
    (s : List ℕ)
    → All IsRune s
    → (utf16_decode (utf16_encode s) ≡ s) × All IsUnit16 (utf16_encode s)
unfolding utf16_encode
utf16_encode-Reads [] h = (unfold utf16_decode in refl, tt)
utf16_encode-Reads (r ∷ s) (hr, h) =
    let first = utf16_units-Reads r hr in
    let rest = utf16_encode-Reads s h in
    (first.decoded (utf16_encode s) ∙ ap (◌∷◌ r) rest.0, first.units16 _ rest.1)

-- Every text comes back unchanged from UCS2, surrogate pairs included.
pub decode_ucs2-encode_ucs2 : (s : List ℕ) → All IsRune s → decode_ucs2 (encode_ucs2 s) ≡ s
unfolding decode_ucs2 encode_ucs2
decode_ucs2-encode_ucs2 s h =
    let there = utf16_encode-Reads s h in rw (get_units-put_units (utf16_encode s) there.1) there.0

length-put_units : (units : List ℕ) → length (put_units units) ≡ 2 * length units
unfolding put_units
length-put_units [] = refl
length-put_units (u ∷ units) = omega (arith, length-put_units units)

-- The octets of a text whose runes take `k` units each.
length-utf16_encode :
    (k : ℕ) (s : List ℕ)
    → All (λ r. length (utf16_units r) ≡ k) s
    → length (utf16_encode s) ≡ length s * k
unfolding utf16_encode
length-utf16_encode k [] h = omega arith
length-utf16_encode k (r ∷ s) (hr, h) =
    omega (arith, length-append (utf16_units r) (utf16_encode s), length-utf16_encode k s h)

pub length-encode_ucs2 :
    (k : ℕ) (s : List ℕ)
    → All (λ r. length (utf16_units r) ≡ k) s
    → length (encode_ucs2 s) ≡ 2 * (length s * k)
unfolding encode_ucs2
length-encode_ucs2 k s h =
    omega (arith, length-put_units (utf16_encode s), length-utf16_encode k s h)
