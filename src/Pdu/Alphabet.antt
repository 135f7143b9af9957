-- ===== src/Pdu/Alphabet.antt =====
-- The GSM 7-bit alphabet (internal/at/pdu.go: gsm7Charset, gsm7Extension, runeToGSM7, IsGSM7,
-- decodeGSM7Text, encodeGSM7Text). A text that the code walks rune by rune, or builds rune by rune,
-- is the list of its runes, which a valid UTF-8 string is. Go's order of iteration over the extension
-- table is arbitrary; its runes are all different, so at most one entry matches.
pub mod Tables
pub mod RoundTrip
mod Tests
use sms_gate.Prelude.{
  ℕ, zero, suc, ◌+◌, Bool, true, false, ◌&&◌, ◌||◌, Option, none, some, List, [], ◌∷◌, ◌++◌, ltb,
  ◌==◌, length, get_or, if◌then◌else◌,
}

abbrev pub gsm7_charset : List ℕ
gsm7_charset =
    0x40 ∷ 0xa3 ∷ 0x24 ∷ 0xa5 ∷ 0xe8 ∷ 0xe9 ∷ 0xf9 ∷ 0xec ∷ 0xf2 ∷ 0xc7 ∷ 0x0a ∷ 0xd8 ∷ 0xf8 ∷ 0x0d
    ∷ 0xc5 ∷ 0xe5 ∷ 0x394 ∷ 0x5f ∷ 0x3a6 ∷ 0x393 ∷ 0x39b ∷ 0x3a9 ∷ 0x3a0 ∷ 0x3a8 ∷ 0x3a3 ∷ 0x398
    ∷ 0x39e ∷ 0x1b ∷ 0xc6 ∷ 0xe6 ∷ 0xdf ∷ 0xc9 ∷ 0x20 ∷ 0x21 ∷ 0x22 ∷ 0x23 ∷ 0xa4 ∷ 0x25 ∷ 0x26
    ∷ 0x27 ∷ 0x28 ∷ 0x29 ∷ 0x2a ∷ 0x2b ∷ 0x2c ∷ 0x2d ∷ 0x2e ∷ 0x2f ∷ 0x30 ∷ 0x31 ∷ 0x32 ∷ 0x33
    ∷ 0x34 ∷ 0x35 ∷ 0x36 ∷ 0x37 ∷ 0x38 ∷ 0x39 ∷ 0x3a ∷ 0x3b ∷ 0x3c ∷ 0x3d ∷ 0x3e ∷ 0x3f ∷ 0xa1
    ∷ 0x41 ∷ 0x42 ∷ 0x43 ∷ 0x44 ∷ 0x45 ∷ 0x46 ∷ 0x47 ∷ 0x48 ∷ 0x49 ∷ 0x4a ∷ 0x4b ∷ 0x4c ∷ 0x4d
    ∷ 0x4e ∷ 0x4f ∷ 0x50 ∷ 0x51 ∷ 0x52 ∷ 0x53 ∷ 0x54 ∷ 0x55 ∷ 0x56 ∷ 0x57 ∷ 0x58 ∷ 0x59 ∷ 0x5a
    ∷ 0xc4 ∷ 0xd6 ∷ 0xd1 ∷ 0xdc ∷ 0xa7 ∷ 0xbf ∷ 0x61 ∷ 0x62 ∷ 0x63 ∷ 0x64 ∷ 0x65 ∷ 0x66 ∷ 0x67
    ∷ 0x68 ∷ 0x69 ∷ 0x6a ∷ 0x6b ∷ 0x6c ∷ 0x6d ∷ 0x6e ∷ 0x6f ∷ 0x70 ∷ 0x71 ∷ 0x72 ∷ 0x73 ∷ 0x74
    ∷ 0x75 ∷ 0x76 ∷ 0x77 ∷ 0x78 ∷ 0x79 ∷ 0x7a ∷ 0xe4 ∷ 0xf6 ∷ 0xf1 ∷ 0xfc ∷ 0xe0 ∷ []

-- Codes and runes.
abbrev pub gsm7_extension : List (ℕ × ℕ)
gsm7_extension =
    (0x0a, 0x0c)
    ∷ (0x14, 0x5e)
    ∷ (0x28, 0x7b)
    ∷ (0x29, 0x7d)
    ∷ (0x2f, 0x5c)
    ∷ (0x3c, 0x5b)
    ∷ (0x3d, 0x7e)
    ∷ (0x3e, 0x5d)
    ∷ (0x40, 0x7c)
    ∷ (0x65, 0x20ac)
    ∷ []

abbrev pub esc : ℕ
esc = 0x1b

-- The map that `init` fills: a rune that stood twice would get the later code. No entry is 0.
unfoldable pub rune_to_gsm7 : ℕ → ℕ → List ℕ → Option ℕ
rune_to_gsm7 r i [] = none
rune_to_gsm7 r i (c ∷ charset) = elim (rune_to_gsm7 r (i + 1) charset) [
  | some code ↦ some code
  | none ↦ if c == r then some i else none
]

abbrev pub basic_code : ℕ → Option ℕ
basic_code r = rune_to_gsm7 r 0 gsm7_charset

-- The loops over the extension table, by rune and by code.
unfoldable pub code_of : ℕ → List (ℕ × ℕ) → Option ℕ
code_of r [] = none
code_of r ((code, er) ∷ table) = if er == r then some code else code_of r table

unfoldable pub rune_of : ℕ → List (ℕ × ℕ) → Option ℕ
rune_of c [] = none
rune_of c ((code, er) ∷ table) = if code == c then some er else rune_of c table

pub is_some {ℓ} : {A : Type ℓ} → Option A → Bool
is_some none = false
is_some (some a) = true

unfoldable pub is_gsm7 : List ℕ → Bool
unfolding is_some
is_gsm7 [] = true
is_gsm7 (r ∷ s) = (is_some (basic_code r) || is_some (code_of r gsm7_extension)) && is_gsm7 s

-- The codes of one rune; a rune in neither table is dropped.
unfoldable pub encode_rune : ℕ → List ℕ
encode_rune r = elim (basic_code r) [
  | some b ↦ b ∷ []
  | none ↦ elim (code_of r gsm7_extension) [ some code ↦ esc ∷ code ∷ [] | none ↦ [] ]
]

unfoldable pub encode_gsm7_text : List ℕ → List ℕ
unfolding encode_rune
encode_gsm7_text [] = []
encode_gsm7_text (r ∷ s) = encode_rune r ++ encode_gsm7_text s

-- An unknown extension code becomes a space, and an escape at the end nothing.
unfoldable pub extension_rune : ℕ → ℕ
extension_rune c = elim (rune_of c gsm7_extension) [ some r ↦ r | none ↦ 0x20 ]

unfoldable mutual
  pub decode_gsm7_text : List ℕ → List ℕ
  decode_gsm7_text [] = []
  decode_gsm7_text (c ∷ codes) =
      let escaped = decode_escaped codes in
      let plain = decode_gsm7_text codes in
      if c == esc
      then escaped
      else (if ltb c (length gsm7_charset) then get_or gsm7_charset c 0 ∷ plain else plain)

  pub decode_escaped : List ℕ → List ℕ
  decode_escaped [] = []
  decode_escaped (c ∷ codes) = extension_rune c ∷ decode_gsm7_text codes
