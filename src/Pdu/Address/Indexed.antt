-- ===== src/Pdu/Address/Indexed.antt =====
-- `decodeBCDAddress` and `decodeSMSC` (internal/at/pdu.go) with the indices and slices of their input
-- checked: where Go panics the result is `none`.
use Prim.Native.Nat.{bit_and}
use sms_gate.Prelude.{
  ℕ, zero, suc, ◌+◌, ◌-◌, ◌*◌, ◌/◌, ◌%◌, ◌<◌, ◌≡◌, refl, ap, ◌∙◌, Bool-cases, inl, inr, true, false,
  Option, some, List, [], ◌∷◌, ◌++◌, ltb, leb, ◌==◌, length, length-append, get_or, take, drop,
  arith, if◌then◌else◌,
}
use sms_gate.Pdu.Septets.{shr8}
use sms_gate.Pdu.Septets.Indexed.{◌>>=◌, index, cut, try_unpack_gsm7, try_unpack_gsm7_lem}
use sms_gate.Pdu.Alphabet.{decode_gsm7_text}
use sms_gate.Pdu.Address.{nibble_at, decode_digits, decode_bcd_address}

unfoldable pub try_nibble_at : List ℕ → ℕ → Option ℕ
unfolding index ◌>>=◌
try_nibble_at octets i = index octets (i / 2) >>= λ b.
    some (if i % 2 == 0 then bit_and b 0x0f else bit_and (shr8 b 4) 0x0f)

-- The loop from `i` with `n` rounds left.
unfoldable pub try_decode_digits : List ℕ → ℕ → ℕ → Option (List ℕ)
unfolding try_nibble_at ◌>>=◌
try_decode_digits octets i zero = some []
try_decode_digits octets i (suc n) =
    let rest = try_decode_digits octets (i + 1) n in
    if leb (length octets) (i / 2)
    then some []
    else (try_nibble_at octets i >>= λ nibble.
        if nibble == 0x0f then some [] else (rest >>= λ digits. some ((b'0' + nibble) ∷ digits)))

unfoldable pub try_decode_bcd_address : List ℕ → ℕ → ℕ → Option (List ℕ)
unfolding try_decode_digits try_unpack_gsm7 ◌>>=◌
try_decode_bcd_address octets num_digits addr_type =
    if addr_type == 0xd0
    then (try_unpack_gsm7 octets num_digits >>= λ septets. some (decode_gsm7_text septets))
    else (try_decode_digits octets 0 num_digits >>= λ digits.
        some (if addr_type == 0x91 then b'+' ∷ digits else digits))

-- The address and the bytes consumed, which may be more than there are.
unfoldable pub decode_smsc : List ℕ → Option (List ℕ × ℕ)
unfolding index cut try_decode_bcd_address ◌>>=◌
decode_smsc [] = some ([], 0)
decode_smsc (smsc_len ∷ rest) =
    let raw = smsc_len ∷ rest in
    if smsc_len == 0
    then some ([], 1)
    else (if ltb (length raw) (1 + smsc_len)
        then some ([], 1 + smsc_len)
        else (index raw 1 >>= λ addr_type. cut raw 2 (1 + smsc_len) >>= λ octets.
            try_decode_bcd_address octets ((smsc_len - 1) * 2) addr_type >>= λ smsc.
            some (smsc, 1 + smsc_len)))

try_nibble_at_lem :
    (octets : List ℕ) (i : ℕ)
    → i / 2 < length octets
    → try_nibble_at octets i ≡ some (nibble_at octets i)
unfolding try_nibble_at nibble_at index ◌>>=◌
try_nibble_at_lem octets i h = ground arith

try_decode_digits_lem :
    (octets : List ℕ) (i n : ℕ) → try_decode_digits octets i n ≡ some (decode_digits octets i n)
unfolding try_decode_digits decode_digits ◌>>=◌
try_decode_digits_lem octets i zero = refl
try_decode_digits_lem octets i (suc n) = elim (Bool-cases (leb (length octets) (i / 2))) [
  | inl end ↦ rw end refl
  | inr inside ↦ elim (Bool-cases (nibble_at octets i == 0x0f)) [
    | inl padding ↦ rw (inside, try_nibble_at_lem octets i (ground arith), padding) refl
    | inr digit ↦
        rw
          (
            inside,
            try_nibble_at_lem octets i (ground arith),
            digit,
            try_decode_digits_lem octets (i + 1) n,
          )
          refl
  ]
]

pub try_decode_bcd_address_lem :
    (octets : List ℕ) (n type : ℕ)
    → try_decode_bcd_address octets n type ≡ some (decode_bcd_address octets n type)
unfolding try_decode_bcd_address decode_bcd_address ◌>>=◌
try_decode_bcd_address_lem octets n type =
    rw (try_unpack_gsm7_lem octets n, try_decode_digits_lem octets 0 n) (ground arith)

decode_smsc-whole :
    (n : ℕ) (raw : List ℕ)
    → (n == 0) ≡ false
    → ltb (length (n ∷ raw)) (1 + n) ≡ false
    → decode_smsc (n ∷ raw)
      ≡ some (
        decode_bcd_address (take (1 + n - 2) (drop 2 (n ∷ raw))) ((n - 1) * 2) (get_or raw 0 0),
        1 + n,
      )
unfolding decode_smsc index cut ◌>>=◌
decode_smsc-whole n raw there whole =
    let type_in : ltb 1 (length (n ∷ raw)) ≡ true = ground arith in
    let ordered : leb 2 (1 + n) ≡ true = ground arith in
    let inside : leb (1 + n) (length (n ∷ raw)) ≡ true = ground arith in
    let octets = take (1 + n - 2) (drop 2 (n ∷ raw)) in
    rw
      (
        there,
        whole,
        type_in,
        ordered,
        inside,
        try_decode_bcd_address_lem octets ((n - 1) * 2) (get_or raw 0 0),
      )
      refl

-- No index and no slice of `decodeSMSC` is out of range.
pub decode_smsc_lem : (raw : List ℕ) → (r : List ℕ × ℕ) × (decode_smsc raw ≡ some r)
unfolding decode_smsc
decode_smsc_lem [] = (([], 0), refl)
decode_smsc_lem (n ∷ raw) = elim (Bool-cases (n == 0)) [
  | inl absent ↦ (([], 1), rw absent refl)
  | inr there ↦ elim (Bool-cases (ltb (length (n ∷ raw)) (1 + n))) [
    | inl short ↦ (([], 1 + n), rw (there, short) refl)
    | inr whole ↦ (_, decode_smsc-whole n raw there whole)
  ]
]

-- The octets of a service centre, its type first, that is given as `centre`.
abbrev pub smsc_of : List ℕ → List ℕ
smsc_of [] = []
smsc_of (type ∷ octets) = decode_bcd_address octets (length octets * 2) type

take-front : (xs ys : List ℕ) → take (length xs) (xs ++ ys) ≡ xs
take-front [] ys = refl
take-front (x ∷ xs) ys = ap (◌∷◌ x) (take-front xs ys)

pub decode_smsc-append :
    (centre rest : List ℕ)
    → decode_smsc (length centre ∷ (centre ++ rest)) ≡ some (smsc_of centre, 1 + length centre)
unfolding decode_smsc
decode_smsc-append [] rest = refl
decode_smsc-append (type ∷ octets) rest =
    let raw : List ℕ = type ∷ (octets ++ rest) in
    let n = length octets in
    let there : (suc n == 0) ≡ false = ground arith in
    let whole : ltb (length (suc n ∷ raw)) (1 + suc n) ≡ false =
      ground (arith, length-append octets rest) in
    let size : 1 + suc n - 2 ≡ n = omega arith in
    let digits : (suc n - 1) * 2 ≡ n * 2 = omega arith in
    let value : (
      decode_bcd_address (take (1 + suc n - 2) (octets ++ rest)) ((suc n - 1) * 2) type,
      1 + suc n,
    )
        ≡ (decode_bcd_address octets (n * 2) type, 1 + suc n) =
      rw (size, digits, take-front octets rest) refl in
    decode_smsc-whole (suc n) raw there whole ∙ ap some value
