-- ===== src/Pdu/Alphabet/Tables.antt =====
-- What the lookups in the two tables find.
use sms_gate.Prelude.{
  ℕ, suc, ◌+◌, ◌-◌, ◌≤◌, ◌<◌, ◌≡◌, refl, ap, ◌∙◌, inl, inr, some, List, [], ◌∷◌, ◌==◌, ==_iff,
  length, get_or, All, arith, Bool-cases, Option-cases,
}
use sms_gate.Pdu.Alphabet.{
  gsm7_charset, gsm7_extension, rune_to_gsm7, basic_code, code_of, rune_of, extension_rune,
}

-- A code that is found stands at its place in the charset.
record Stands (r i b : ℕ) (charset : List ℕ) : Type 0 where
  after : i ≤ b
  before : b < i + length charset
  rune : get_or charset (b - i) 0 ≡ r

rune_to_gsm7-Stands :
    (charset : List ℕ) (r i b : ℕ) → rune_to_gsm7 r i charset ≡ some b → Stands r i b charset
unfolding rune_to_gsm7
rune_to_gsm7-Stands [] r i b h = absurd (ground arith)
rune_to_gsm7-Stands (c ∷ charset) r i b h = elim (Option-cases (rune_to_gsm7 r (i + 1) charset)) [
  | inr (code, e) ↦
      let same : code ≡ b = ground arith in
      let there = rune_to_gsm7-Stands charset r (i + 1) b (e ∙ ap some same) in
      let next : b - i ≡ suc (b - (i + 1)) = omega (arith, there.after) in
      record {
        after = omega (arith, there.after);
        before = omega (arith, there.before);
        rune = rw next there.rune;
      }
  | inl e ↦ elim (Bool-cases (c == r)) [
    | inl found ↦
        let same : i ≡ b = ground arith in
        let here : b - i ≡ 0 = omega arith in
        record { after = omega arith; before = omega arith; rune = rw here (ground arith) }
    | inr other ↦ absurd (ground arith)
  ]
]

pub basic_code_lem : (r b : ℕ) → basic_code r ≡ some b → (b < 128) × (get_or gsm7_charset b 0 ≡ r)
basic_code_lem r b h =
    let there = rune_to_gsm7-Stands gsm7_charset r 0 b h in
    let start : b - 0 ≡ b = omega arith in (omega (arith, there.before), rw start at there.rune)

-- Every entry of the extension table is found by its code, which is a septet.
abbrev Indexed : List (ℕ × ℕ) → ℕ × ℕ → Type 0
Indexed table (code, er) = (rune_of code table ≡ some er) × (code < 128)

extension-Indexed : All (Indexed gsm7_extension) gsm7_extension
unfolding rune_of
extension-Indexed = (
  (refl, omega arith),
  (
    (refl, omega arith),
    (
      (refl, omega arith),
      (
        (refl, omega arith),
        (
          (refl, omega arith),
          (
            (refl, omega arith),
            (
              (refl, omega arith),
              ((refl, omega arith), ((refl, omega arith), ((refl, omega arith), tt))),
            ),
          ),
        ),
      ),
    ),
  ),
)

code_of-Indexed :
    (whole table : List (ℕ × ℕ)) (r code : ℕ)
    → All (Indexed whole) table
    → code_of r table ≡ some code
    → Indexed whole (code, r)
unfolding code_of
code_of-Indexed whole [] r code all h = absurd (ground arith)
code_of-Indexed whole ((c, er) ∷ table) r code (here, all) h = elim (Bool-cases (er == r)) [
  | inl found ↦ let same : c ≡ code = ground arith in rw (same, (==_iff er r).0 found) at here
  | inr other ↦ code_of-Indexed whole table r code all (ground arith)
]

pub code_of_lem :
    (r code : ℕ) → code_of r gsm7_extension ≡ some code → (extension_rune code ≡ r) × (code < 128)
unfolding extension_rune
code_of_lem r code h =
    let there = code_of-Indexed gsm7_extension gsm7_extension r code extension-Indexed h in
    (ground (arith, there.0), there.1)
