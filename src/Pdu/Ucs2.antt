-- ===== src/Pdu/Ucs2.antt =====
-- UCS2 text (internal/at/pdu.go: decodeUCS2, encodeUCS2), with what `unicode/utf16` does: a rune above
-- U+FFFF becomes a surrogate pair, and a surrogate that is not part of a pair becomes U+FFFD.
pub mod RoundTrip
mod Tests
use sms_gate.Prelude.{
  ℕ, suc, ◌+◌, ◌-◌, ◌*◌, ◌/◌, ◌%◌, Bool, ◌&&◌, ◌||◌, List, [], ◌∷◌, ◌++◌, ltb, leb, length,
  if◌then◌else◌,
}

abbrev pub replacement : ℕ
replacement = 0xfffd

abbrev pub is_surrogate : ℕ → Bool
is_surrogate u = leb 0xd800 u && ltb u 0xe000

-- utf16.Encode, one rune.
unfoldable pub utf16_units : ℕ → List ℕ
utf16_units r =
    if ltb r 0x10000
    then (if is_surrogate r then replacement else r) ∷ []
    else (if leb r 0x10ffff
        then (0xd800 + (r - 0x10000) / 0x400) ∷ (0xdc00 + (r - 0x10000) % 0x400) ∷ []
        else replacement ∷ [])

-- binary.BigEndian.PutUint16 of each unit.
unfoldable pub put_units : List ℕ → List ℕ
put_units [] = []
put_units (u ∷ units) = (u / 256 % 256) ∷ (u % 256) ∷ put_units units

unfoldable pub utf16_encode : List ℕ → List ℕ
unfolding utf16_units
utf16_encode [] = []
utf16_encode (r ∷ s) = utf16_units r ++ utf16_encode s

unfoldable pub encode_ucs2 : List ℕ → List ℕ
unfolding utf16_encode put_units
encode_ucs2 s = put_units (utf16_encode s)

-- binary.BigEndian.Uint16 of each pair; an odd byte at the end is dropped.
unfoldable pub get_units : List ℕ → List ℕ
get_units [] = []
get_units (b ∷ []) = []
get_units (hi ∷ lo ∷ octets) = (hi * 256 + lo) ∷ get_units octets

-- utf16.Decode.
unfoldable pub utf16_decode : List ℕ → List ℕ
utf16_decode [] = []
utf16_decode (u ∷ []) = (if is_surrogate u then replacement else u) ∷ []
utf16_decode (u ∷ v ∷ units) =
    let pair = ((u - 0xd800) * 0x400 + (v - 0xdc00) + 0x10000) ∷ utf16_decode units in
    let lone = (if is_surrogate u then replacement else u) ∷ utf16_decode (v ∷ units) in
    if leb 0xd800 u && ltb u 0xdc00 && leb 0xdc00 v && ltb v 0xe000 then pair else lone

unfoldable pub decode_ucs2 : List ℕ → List ℕ
unfolding get_units utf16_decode
decode_ucs2 octets = utf16_decode (get_units octets)
