-- ===== src/Pdu/Septets/Fill.antt =====
-- The packing behind fill bits.
use native.Mathlib.Nat.{pow-suc, one-le-pow}
use sms_gate.Prelude.{
  ℕ, zero, suc, ◌+◌, ◌-◌, ◌*◌, ◌/◌, ◌%◌, ◌^◌, ◌≤◌, ◌<◌, ◌≡◌, refl, ◌∙◌, List, [], ◌∷◌, ◌++◌, length,
  length-append, length-replicate, replicate, All, arith, false, ◌==◌, if◌then◌else◌,
}
use sms_gate.Prelude.Bits.{pow-add, bit_and-0x01}
use sms_gate.Pdu.Septets.{or_at, shl8, bits_from, septet_bits, or_bits, repack_with_fill}
use sms_gate.Pdu.Septets.Stream.{
  value, septet_value, value-replicate, length-set, value-or_at, shift_room, IsByte, All-replicate,
  All-or_at,
}
use sms_gate.Pdu.Septets.Pack.{IsSeptet}

abbrev bits_value : List ℕ → ℕ
bits_value [] = 0
bits_value (b ∷ bs) = b + 2 * bits_value bs

abbrev IsBit : ℕ → Type 0
IsBit b = b ≤ 1

bits_value-replicate :
    (f : ℕ) (bs : List ℕ) → bits_value (replicate f 0 ++ bs) ≡ bits_value bs * 2 ^ f
bits_value-replicate zero bs = omega arith
bits_value-replicate (suc f) bs = rw (pow-suc 2 f) (omega (arith, bits_value-replicate f bs))

bits_value-septet_bits :
    (cs : List ℕ) → All IsSeptet cs → bits_value (septet_bits cs) ≡ septet_value cs
unfolding septet_bits
bits_value-septet_bits [] s = refl
bits_value-septet_bits (c ∷ cs) (sc, s) = omega (
  arith,
  bits_value-septet_bits cs s,
  bit_and-0x01 (c / 2 ^ 0) (omega arith),
  bit_and-0x01 (c / 2 ^ (0 + 1)) (omega arith),
  bit_and-0x01 (c / 2 ^ (0 + 1 + 1)) (omega arith),
  bit_and-0x01 (c / 2 ^ (0 + 1 + 1 + 1)) (omega arith),
  bit_and-0x01 (c / 2 ^ (0 + 1 + 1 + 1 + 1)) (omega arith),
  bit_and-0x01 (c / 2 ^ (0 + 1 + 1 + 1 + 1 + 1)) (omega arith),
  bit_and-0x01 (c / 2 ^ (0 + 1 + 1 + 1 + 1 + 1 + 1)) (omega arith),
)

All-bits_from :
    (c b n : ℕ) (rest : List ℕ) → IsSeptet c → All IsBit rest → All IsBit (bits_from c b n ++ rest)
unfolding bits_from
All-bits_from c b zero rest s h = h
All-bits_from c b (suc n) rest s h =
    (omega (arith, bit_and-0x01 (c / 2 ^ b) (omega arith)), All-bits_from c (b + 1) n rest s h)

All-septet_bits : (cs : List ℕ) → All IsSeptet cs → All IsBit (septet_bits cs)
unfolding septet_bits
All-septet_bits [] s = tt
All-septet_bits (c ∷ cs) (sc, s) = All-bits_from c 0 7 (septet_bits cs) sc (All-septet_bits cs s)

length-septet_bits : (cs : List ℕ) → length (septet_bits cs) ≡ length cs * 7
unfolding septet_bits
length-septet_bits [] = refl
length-septet_bits (c ∷ cs) = omega (arith, length-septet_bits cs)

one_at : (q : ℕ) → q < 8 → shl8 1 q ≡ 1 * 2 ^ q
one_at zero h = refl
one_at (suc zero) h = refl
one_at (suc (suc zero)) h = refl
one_at (suc (suc (suc zero))) h = refl
one_at (suc (suc (suc (suc zero)))) h = refl
one_at (suc (suc (suc (suc (suc zero))))) h = refl
one_at (suc (suc (suc (suc (suc (suc zero)))))) h = refl
one_at (suc (suc (suc (suc (suc (suc (suc zero))))))) h = refl
one_at (suc (suc (suc (suc (suc (suc (suc (suc q)))))))) h = absurd (omega arith)

shift_one : (q : ℕ) → q < 8 → 1 < 2 ^ (8 - q)
shift_one q h =
    let e : 8 - q ≡ suc (7 - q) = omega arith in
    rw (e, pow-suc 2 (7 - q)) (omega (arith, one-le-pow (7 - q) 2 (omega arith)))

-- One bit.
value-or_bit :
    (out : List ℕ) (i p q bit : ℕ)
    → i ≡ 8 * p + q
    → q < 8
    → i < 8 * length out
    → IsBit bit
    → value out < 2 ^ i
    → value (if bit == 0 then out else or_at out p (shl8 1 q)) ≡ value out + bit * 2 ^ i
value-or_bit out i p q zero e h fits b lt = omega arith
value-or_bit out i p q (suc zero) e h fits b lt =
    rw (one_at q h, e) (value-or_at out p q 1 (omega arith) (rw e at lt))
value-or_bit out i p q (suc (suc bit)) e h fits b lt = absurd (omega arith)

All-or_bit :
    (out : List ℕ) (i p q bit : ℕ)
    → i ≡ 8 * p + q
    → q < 8
    → value out < 2 ^ i
    → All IsByte out
    → All IsByte (if bit == 0 then out else or_at out p (shl8 1 q))
All-or_bit out i p q zero e h lt all = all
All-or_bit out i p q (suc bit) e h lt all =
    let set_bit : (suc bit == 0) ≡ false = ground arith in
    rw (set_bit, one_at q h)
      (All-or_at out p q 1 (omega arith) (rw e at lt) (omega (arith, shift_one q h)) all)

length-or_bit :
    (out : List ℕ) (p q bit : ℕ)
    → length (if bit == 0 then out else or_at out p (shl8 1 q)) ≡ length out
length-or_bit out p q zero = refl
length-or_bit out p q (suc bit) =
    let set_bit : (suc bit == 0) ≡ false = ground arith in rw (set_bit, length-set)

next_bit_room : (i v b : ℕ) → v < 2 ^ i → IsBit b → v + b * 2 ^ i < 2 ^ (i + 1)
next_bit_room i v b lt h = rw (pow-add i 1) (shift_room v b (2 ^ i) 2 lt (omega arith))

-- What the loop from bit `i` on leaves in `out`.
record Written (bits out out' : List ℕ) (i : ℕ) : Type 0 where
  total : value out' ≡ value out + bits_value bits * 2 ^ i
  size : length out' ≡ length out
  bytes : All IsByte out'

or_bits-Written :
    (bits out : List ℕ) (i : ℕ)
    → i + length bits ≤ 8 * length out
    → All IsBit bits
    → value out < 2 ^ i
    → All IsByte out
    → Written bits out (or_bits out i bits) i
unfolding or_bits
or_bits-Written [] out i fits b lt all = record { total = omega arith; size = refl; bytes = all }
or_bits-Written (bit ∷ bits) out i fits (hb, b) lt all =
    let p : ℕ = i / 8 in
    let q : ℕ = i % 8 in
    let out' : List ℕ = if bit == 0 then out else or_at out p (shl8 1 q) in
    let e : i ≡ 8 * p + q = omega arith in
    let len : length out' ≡ length out = length-or_bit out p q bit in
    let here = value-or_bit out i p q bit e (omega arith) (omega arith) hb lt in
    let rest =
      or_bits-Written bits out' (i + 1) (omega arith) b
        (rw here (next_bit_room i (value out) bit lt hb))
        (All-or_bit out i p q bit e (omega arith) lt all) in
    record {
      total = omega (arith, rw (pow-add i 1) at rest.total, here);
      size = rest.size ∙ len;
      bytes = rest.bytes;
    }

-- The bits that are written: the fill, and then those of the septets.
fill_bits : ℕ → List ℕ → List ℕ
fill_bits f cs = replicate f 0 ++ septet_bits cs

All-fill_bits : (f : ℕ) (cs : List ℕ) → All IsSeptet cs → All IsBit (fill_bits f cs)
unfolding fill_bits
All-fill_bits zero cs s = All-septet_bits cs s
All-fill_bits (suc f) cs s = (omega arith, All-fill_bits f cs s)

repack-Written :
    (cs : List ℕ) (f : ℕ)
    → All IsSeptet cs
    → Written
        (fill_bits f cs)
        (replicate ((length (fill_bits f cs) + 7) / 8) 0)
        (repack_with_fill cs f)
        0
unfolding repack_with_fill fill_bits
repack-Written cs f s =
    let n : ℕ = (length (fill_bits f cs) + 7) / 8 in
    or_bits-Written (fill_bits f cs) (replicate n 0) 0
      (rw (length-replicate {A = ℕ} n 0) (omega arith)) (All-fill_bits f cs s)
      (rw (value-replicate n) (omega arith)) (All-replicate n)

module _ (cs : List ℕ) (f : ℕ) (s : All IsSeptet cs) where
  pub value-repack_with_fill : value (repack_with_fill cs f) ≡ septet_value cs * 2 ^ f
  unfolding fill_bits
  value-repack_with_fill = omega (
    arith,
    (repack-Written cs f s).total,
    value-replicate ((length (fill_bits f cs) + 7) / 8),
    rw (bits_value-septet_bits cs s) at (bits_value-replicate f (septet_bits cs)),
  )

  pub length-repack_with_fill : length (repack_with_fill cs f) ≡ (length cs * 7 + f + 7) / 8
  unfolding fill_bits
  length-repack_with_fill =
      let n : length (fill_bits f cs) ≡ f + length cs * 7 = omega (
        arith,
        length-append (replicate f 0) (septet_bits cs),
        length-replicate {A = ℕ} f 0,
        length-septet_bits cs,
      ) in
      (repack-Written cs f s).size ∙ length-replicate {A = ℕ} _ 0 ∙ rw n (omega arith)

  pub All-repack_with_fill : All IsByte (repack_with_fill cs f)
  All-repack_with_fill = (repack-Written cs f s).bytes
