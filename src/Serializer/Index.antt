-- ===== src/Serializer/Index.antt =====
-- The numbers that ParseCMTI and ParseCSQ accept.
use native.Mathlib.Nat.{pow-suc}
use sms_gate.Prelude.{
  All, ℕ, zero, suc, ◌+◌, ◌-◌, ◌*◌, ◌/◌, ◌%◌, ◌^◌, ◌≤◌, ◌<◌, ◌≡◌, refl, ap, ◌∙◌, inl, inr, true,
  false, Option, none, some, List, [], ◌∷◌, ◌++◌, ltb, leb, ◌==◌, length, arith, Bool-cases,
}
use sms_gate.Prelude.Int.{ℤ, pos, negsuc}
use sms_gate.Prelude.Text.{codes}
use sms_gate.Prelude.Strings.{
  trim_prefix, is_digit, trim_left, trim_right, trim_space, split_from, split, digits_from,
  scan_digits, scan_signed, skip_blanks, scan_int, itoa_from, itoa, has_prefix,
}
use sms_gate.Serializer.{Line, ok}
use sms_gate.Serializer.Responses.{
  parse_cmti, parse_csq, dbm, csq_range, second_number, csq_numbers,
}

abbrev Digits : List ℕ → Type 0
Digits s = All (λ c. is_digit c ≡ true) s

is_digit_lem : (d : ℕ) → d < 10 → is_digit (b'0' + d) ≡ true
is_digit_lem d h = ground arith

digits_from-digit :
    (acc d : ℕ) (after : List ℕ)
    → d < 10
    → digits_from acc ((b'0' + d) ∷ after) ≡ digits_from (acc * 10 + d) after
unfolding digits_from
digits_from-digit acc d after h =
    rw (is_digit_lem d h) (ap (λ k. digits_from k after) (omega arith))

digits_left : (fuel n : ℕ) → n < 10 ^ suc fuel → n / 10 < 10 ^ fuel
digits_left fuel n h = omega (arith, pow-suc 10 fuel)

digits_from-itoa_from :
    (fuel n : ℕ) (after : List ℕ)
    → n < 10 ^ fuel
    → digits_from 0 (itoa_from fuel n after) ≡ digits_from n after
unfolding digits_from itoa_from
digits_from-itoa_from zero n after h = ap (λ k. digits_from k after) (omega arith)
digits_from-itoa_from (suc fuel) n after h = elim (Bool-cases (ltb n 10)) [
  | inl small ↦
      rw small
        (digits_from-digit 0 n after (ground arith) ∙ ap (λ k. digits_from k after) (omega arith))
  | inr large ↦
      let fits : n / 10 < 10 ^ fuel = digits_left fuel n h in
      rw large (
        digits_from-itoa_from fuel (n / 10) ((b'0' + n % 10) ∷ after) fits
        ∙ digits_from-digit (n / 10) (n % 10) after (omega arith)
        ∙ ap (λ k. digits_from k after) (omega arith))
]

itoa_from-Digits : (fuel n : ℕ) (after : List ℕ) → Digits after → Digits (itoa_from fuel n after)
unfolding itoa_from
itoa_from-Digits zero n after h = h
itoa_from-Digits (suc fuel) n after h = elim (Bool-cases (ltb n 10)) [
  | inl small ↦ rw small (ground arith, h)
  | inr large ↦ rw large (
      itoa_from-Digits fuel (n / 10) ((b'0' + n % 10) ∷ after)
        (is_digit_lem (n % 10) (omega arith), h))
]

-- Text without white space is not trimmed.
trim_left-Digits : (s : List ℕ) → Digits s → trim_left s ≡ s
unfolding trim_left
trim_left-Digits [] h = refl
trim_left-Digits (c ∷ s) (hc, h) = ground arith

trim_right-Digits : (s : List ℕ) → Digits s → trim_right s ≡ s
unfolding trim_right
trim_right-Digits [] h = refl
trim_right-Digits (c ∷ s) (hc, h) = let rest = trim_right-Digits s h in ground arith

split_from-last : (s : List ℕ) → Digits s → split_from b',' s ≡ (s, [])
unfolding split_from
split_from-last [] h = refl
split_from-last (c ∷ s) (hc, h) =
    let other : (c == b',') ≡ false = ground arith in rw (other, split_from-last s h) refl

split_from-append :
    (store s : List ℕ)
    → All (λ c. (c == b',') ≡ false) store
    → Digits s
    → split_from b',' (store ++ b',' ∷ s) ≡ (store, s ∷ [])
unfolding split_from
split_from-append [] s h digits = rw (split_from-last s digits) refl
split_from-append (c ∷ store) s (hc, h) digits = rw (split_from-append store s h digits, hc) refl

skip_blanks-digit : (c : ℕ) (s : List ℕ) → is_digit c ≡ true → skip_blanks (c ∷ s) ≡ c ∷ s
unfolding skip_blanks
skip_blanks-digit c s h = ground arith

scan_signed-digit :
    (c : ℕ) (s : List ℕ) → is_digit c ≡ true → scan_signed (c ∷ s) ≡ scan_digits false (c ∷ s)
unfolding scan_signed
scan_signed-digit c s h = ground arith

-- Text of digits only, read with %d.
scan_int-Digits :
    (s : List ℕ) (n : ℕ)
    → Digits s
    → 0 < length s
    → digits_from 0 s ≡ (n, [])
    → n < 2 ^ 63
    → scan_int s ≡ some (pos n, [])
unfolding scan_int scan_digits
scan_int-Digits [] n h some_digit e small = absurd (omega arith)
scan_int-Digits (c ∷ s) n (hc, h) some_digit e small =
    let fits : ltb n (2 ^ 63) ≡ true = ground arith in
    rw (skip_blanks-digit c s hc, scan_signed-digit c s hc, e, hc, fits) refl

itoa_from-length : (fuel n : ℕ) (after : List ℕ) → length after ≤ length (itoa_from fuel n after)
unfolding itoa_from
itoa_from-length zero n after = omega arith
itoa_from-length (suc fuel) n after = elim (Bool-cases (ltb n 10)) [
  | inl small ↦ rw small (omega arith)
  | inr large ↦
      let next = itoa_from-length fuel (n / 10) ((b'0' + n % 10) ∷ after) in rw large (omega arith)
]

itoa-some : (fuel n : ℕ) → 0 < length (itoa_from (suc fuel) n [])
unfolding itoa_from
itoa-some fuel n = elim (Bool-cases (ltb n 10)) [
  | inl small ↦ rw small (omega arith)
  | inr large ↦
      let next = itoa_from-length fuel (n / 10) ((b'0' + n % 10) ∷ []) in rw large (omega arith)
]

-- ParseCMTI reads back the index: of any text without a comma, a comma and the digits of a number from 0
-- to 999, it returns that number. The modem's `+CMTI: "SM",5` is of this form.
pub parse_cmti-itoa :
    (store : Line) (n : ℕ)
    → All (λ c. (c == b',') ≡ false) store
    → n ≤ 999
    → parse_cmti (store ++ b',' ∷ itoa n) ≡ ok n
unfolding parse_cmti split itoa trim_space digits_from
parse_cmti-itoa store n h small =
    let plain = itoa_from-Digits 20 n [] tt in
    let value = digits_from-itoa_from 20 n [] (omega arith) in
    let read = scan_int-Digits (itoa_from 20 n []) n plain (itoa-some 19 n) value (omega arith) in
    let bounded : ltb 999 n ≡ false = ground arith in
    rw
      (
        split_from-append store (itoa_from 20 n []) h plain,
        trim_left-Digits (itoa_from 20 n []) plain,
        trim_right-Digits (itoa_from 20 n []) plain,
        read,
        bounded,
      )
      refl

-- From -113 to -51 dBm.
pub data IsRssi : ℤ → Type 0 where
  rssi : (n : ℕ) → 50 ≤ n → n ≤ 112 → IsRssi (negsuc n)

dbm-IsRssi : (csq : ℕ) (d : ℤ) → dbm csq ≡ ok d → IsRssi d
dbm-IsRssi csq d e = elim (Bool-cases (csq == 99)) [
  | inl unknown ↦
      let same : d ≡ negsuc 112 = ground arith in rw same (rssi 112 (omega arith) (omega arith))
  | inr known ↦ elim (Bool-cases (leb csq 31)) [
    | inl small ↦
        let same : d ≡ negsuc (112 - csq * 2) = ground arith in
        rw same (rssi (112 - csq * 2) (ground arith) (omega arith))
    | inr large ↦ absurd (ground arith)
  ]
]

csq_range-IsRssi : (csq d : ℤ) → csq_range csq ≡ ok d → IsRssi d
csq_range-IsRssi (pos csq) d e = dbm-IsRssi csq d e
csq_range-IsRssi (negsuc n) d e = absurd (ground arith)

second_number-IsRssi : (csq d : ℤ) (q : Option (ℤ × List ℕ)) → second_number csq q ≡ ok d → IsRssi d
second_number-IsRssi csq d none e = absurd (ground arith)
second_number-IsRssi csq d (some (ber, rest)) e = csq_range-IsRssi csq d e

csq_numbers-IsRssi : (q : Option (ℤ × List ℕ)) (d : ℤ) → csq_numbers q ≡ ok d → IsRssi d
csq_numbers-IsRssi none d e = absurd (ground arith)
csq_numbers-IsRssi (some (csq, [])) d e = absurd (ground arith)
csq_numbers-IsRssi (some (csq, c ∷ rest)) d e = elim (Bool-cases (c == b',')) [
  | inl comma ↦ second_number-IsRssi csq d (scan_int rest) (rw comma at e)
  | inr other ↦ absurd (ground (arith, rw other at e))
]

-- Every strength that ParseCSQ returns, for any text, is from -113 to -51 dBm.
pub parse_csq-IsRssi : (line : Line) (d : ℤ) → parse_csq line ≡ ok d → IsRssi d
unfolding parse_csq
parse_csq-IsRssi line d e = elim (Bool-cases (has_prefix (codes "+CSQ:") (trim_space line))) [
  | inl hit ↦
      csq_numbers-IsRssi (scan_int (trim_space (trim_prefix (codes "+CSQ:") (trim_space line)))) d
        (rw hit at e)
  | inr miss ↦ absurd (ground (arith, rw miss at e))
]
