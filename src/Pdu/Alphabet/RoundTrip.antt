-- ===== src/Pdu/Alphabet/RoundTrip.antt =====
-- Texts through the alphabet and through the packing.
use sms_gate.Prelude.{
  ℕ, ◌<◌, ◌≡◌, ◌≢◌, refl, sym, ap, ◌∙◌, inl, inr, true, ◌||◌, some, List, [], ◌∷◌, ◌++◌, length,
  get_or, take_all, All, arith, Option-cases,
}
use sms_gate.Pdu.Septets.{pack_gsm7, unpack_gsm7}
use sms_gate.Pdu.Septets.Pack.{IsSeptet}
use sms_gate.Pdu.Septets.RoundTrip.{unpack_gsm7-pack_gsm7}
use sms_gate.Pdu.Alphabet.{
  gsm7_charset, gsm7_extension, esc, basic_code, code_of, is_some, is_gsm7, encode_rune,
  encode_gsm7_text, extension_rune, decode_gsm7_text, decode_escaped,
}
use sms_gate.Pdu.Alphabet.Tables.{basic_code_lem, code_of_lem}

decode_plain :
    (c : ℕ) (codes : List ℕ)
    → c ≢ esc
    → c < 128
    → decode_gsm7_text (c ∷ codes) ≡ get_or gsm7_charset c 0 ∷ decode_gsm7_text codes
unfolding decode_gsm7_text
decode_plain c codes h lt = ground arith

decode_extension :
    (c : ℕ) (codes : List ℕ)
    → decode_gsm7_text (esc ∷ c ∷ codes) ≡ extension_rune c ∷ decode_gsm7_text codes
unfolding decode_gsm7_text decode_escaped
decode_extension c codes = refl

abbrev IsKnown : ℕ → Type 0
IsKnown r = (is_some (basic_code r) || is_some (code_of r gsm7_extension)) ≡ true

-- One rune.
record Encodes (r : ℕ) (codes : List ℕ) : Type 0 where
  decoded : (rest : List ℕ) → decode_gsm7_text (codes ++ rest) ≡ r ∷ decode_gsm7_text rest
  septets : (rest : List ℕ) → All IsSeptet rest → All IsSeptet (codes ++ rest)

basic_code-Encodes : (r b : ℕ) → r ≢ esc → basic_code r ≡ some b → Encodes r (b ∷ [])
basic_code-Encodes r b h e =
    let there = basic_code_lem r b e in
    let not_esc : b ≢ esc = λ p. h (sym there.1 ∙ ap (λ (c : ℕ). get_or gsm7_charset c 0) p) in
    record {
      decoded =
          λ rest. decode_plain b rest not_esc there.0 ∙ ap (λ c. c ∷ decode_gsm7_text rest) there.1;
      septets = λ rest all. (there.0, all);
    }

code_of-Encodes : (r code : ℕ) → code_of r gsm7_extension ≡ some code → Encodes r (esc ∷ code ∷ [])
code_of-Encodes r code e =
    let there = code_of_lem r code e in
    record {
      decoded = λ rest. decode_extension code rest ∙ ap (λ c. c ∷ decode_gsm7_text rest) there.0;
      septets = λ rest all. (omega arith, (there.1, all));
    }

encode_rune-Encodes : (r : ℕ) → IsKnown r → r ≢ esc → Encodes r (encode_rune r)
unfolding encode_rune is_some
encode_rune-Encodes r known h = elim (Option-cases (basic_code r)) [
  | inr (b, e) ↦ rw (e, encode_rune) (basic_code-Encodes r b h e)
  | inl e ↦ elim (Option-cases (code_of r gsm7_extension)) [
    | inr (code, e') ↦ rw (e, e', encode_rune) (code_of-Encodes r code e')
    | inl e' ↦ absurd (ground arith)
  ]
]

-- No rune of the text is the escape character itself.
abbrev pub NoEscape : List ℕ → Type 0
NoEscape s = All (λ r. r ≢ esc) s

encode_gsm7_text-Encodes :
    (s : List ℕ)
    → is_gsm7 s ≡ true
    → NoEscape s
    → (decode_gsm7_text (encode_gsm7_text s) ≡ s) × All IsSeptet (encode_gsm7_text s)
unfolding encode_gsm7_text is_gsm7
encode_gsm7_text-Encodes [] known h = (unfold decode_gsm7_text in refl, tt)
encode_gsm7_text-Encodes (r ∷ s) known (hr, h) =
    let first = encode_rune-Encodes r (ground arith) hr in
    let rest = encode_gsm7_text-Encodes s (ground arith) h in
    (first.decoded (encode_gsm7_text s) ∙ ap (◌∷◌ r) rest.0, first.septets _ rest.1)

-- A text that `IsGSM7` accepts and that holds no escape character comes back unchanged through
-- encoding, packing into bytes, unpacking and decoding, and the codes are septets.
pub decode_gsm7_text-encode_gsm7_text :
    (s : List ℕ)
    → is_gsm7 s ≡ true
    → NoEscape s
    → let codes = encode_gsm7_text s in
      (decode_gsm7_text (unpack_gsm7 (pack_gsm7 codes) (length codes)) ≡ s) × All IsSeptet codes
decode_gsm7_text-encode_gsm7_text s known h =
    let there = encode_gsm7_text-Encodes s known h in
    (
      rw
          (
            unpack_gsm7-pack_gsm7 (encode_gsm7_text s) (length (encode_gsm7_text s)) there.1
                (omega arith),
            take_all (length (encode_gsm7_text s)) (encode_gsm7_text s) (omega arith),
          )
          there.0,
      there.1,
    )
