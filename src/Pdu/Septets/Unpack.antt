-- ===== src/Pdu/Septets/Unpack.antt =====
-- Unpacking reads the digits to base 128 of the number that the bytes stand for.
use Prim.Native.Nat.{bit_and, bit_or}
use mathlib.Core.Path.{ap₂}
use native.Mathlib.Nat.{div-div-eq-div-mul}
use sms_gate.Prelude.{
  ℕ, zero, suc, ◌+◌, ◌-◌, ◌*◌, ◌/◌, ◌%◌, ◌^◌, ◌≤◌, ◌<◌, ◌≡◌, refl, sym, ap, ◌∙◌, inl, inr, List, [],
  ◌∷◌, false, length, get_or, drop, All, arith, ltb, ltb→lt, lt→ltb, leb, min, Bool-cases,
  if◌then◌else◌,
}
use sms_gate.Prelude.Bits.{pow-add, bit_or_disjoint, bit_and-0x7f}
use sms_gate.Pdu.Septets.{shl8, shr8, unpack_at, unpack_loop, unpack_gsm7}
use sms_gate.Pdu.Septets.Stream.{value, next_byte, IsByte}

get_or-IsByte : (xs : List ℕ) (p : ℕ) → All IsByte xs → IsByte (get_or xs p 0)
get_or-IsByte [] p h = omega arith
get_or-IsByte (x ∷ xs) zero h = h.0
get_or-IsByte (x ∷ xs) (suc p) h = get_or-IsByte xs p h.1

-- The bytes from `p` on, as a number.
value-drop : (xs : List ℕ) (p : ℕ) → All IsByte xs → value xs / 2 ^ (8 * p) ≡ value (drop p xs)
value-drop xs zero h = omega arith
value-drop [] (suc p) h = rw next_byte (omega arith)
value-drop (x ∷ xs) (suc p) h =
    let e : value (x ∷ xs) / 256 ≡ value xs = omega arith in
    rw (next_byte p, ← div-div-eq-div-mul (value (x ∷ xs)) 256 (2 ^ (8 * p)), e)
      (value-drop xs p h.1)

value-drop_step :
    (xs : List ℕ) (p : ℕ) → value (drop p xs) ≡ get_or xs p 0 + 256 * value (drop (suc p) xs)
value-drop_step [] zero = omega arith
value-drop_step [] (suc p) = omega arith
value-drop_step (x ∷ xs) zero = omega arith
value-drop_step (x ∷ xs) (suc p) = value-drop_step xs p

value_parts :
    (xs : List ℕ) (p : ℕ)
    → value (drop p xs)
      ≡ get_or xs p 0 + 256 * (get_or xs (p + 1) 0 + 256 * value (drop (suc (suc p)) xs))
value_parts xs p =
    let e : p + 1 ≡ suc p = omega arith in
    rw e (omega (arith, value-drop_step xs p, value-drop_step xs (suc p)))

-- A septet in two bytes: the bits of the first one lie below `k`, those of the second above.
crossing :
    (x z k y n : ℕ)
    → IsByte z
    → x < 2 ^ k
    → x < 128
    → z % 128 ≡ y * 2 ^ k
    → x + y * 2 ^ k ≡ n
    → bit_or (bit_and x 0x7f) (bit_and z 0x7f) ≡ n
crossing x z k y n hz low hx e total =
    let same : x % 128 ≡ x = omega arith in
    rw (bit_and-0x7f x (omega arith), bit_and-0x7f z hz, same, e)
      (bit_or_disjoint k x y low ∙ total)

-- The two bytes that a septet may lie in.
unpack_digits :
    (a b r q : ℕ)
    → q < 8
    → IsByte a
    → IsByte b
    → (if ltb 1 q
        then bit_or (bit_and (shr8 a q) 0x7f) (bit_and (shl8 b (8 - q)) 0x7f)
        else bit_and (shr8 a q) 0x7f)
      ≡ (a + 256 * (b + 256 * r)) / 2 ^ q % 128
unpack_digits a b r zero h ha hb = rw (bit_and-0x7f (a / 2 ^ 0) (omega arith)) (omega arith)
unpack_digits a b r (suc zero) h ha hb = rw (bit_and-0x7f (a / 2 ^ 1) (omega arith)) (omega arith)
unpack_digits a b r (suc (suc zero)) h ha hb =
    crossing (a / 2 ^ 2) (b * 2 ^ 6 % 256) 6 (b % 2 ^ 1) _ (omega arith) (omega arith) (omega arith)
      (omega arith) (omega arith)
unpack_digits a b r (suc (suc (suc zero))) h ha hb =
    crossing (a / 2 ^ 3) (b * 2 ^ 5 % 256) 5 (b % 2 ^ 2) _ (omega arith) (omega arith) (omega arith)
      (omega arith) (omega arith)
unpack_digits a b r (suc (suc (suc (suc zero)))) h ha hb =
    crossing (a / 2 ^ 4) (b * 2 ^ 4 % 256) 4 (b % 2 ^ 3) _ (omega arith) (omega arith) (omega arith)
      (omega arith) (omega arith)
unpack_digits a b r (suc (suc (suc (suc (suc zero))))) h ha hb =
    crossing (a / 2 ^ 5) (b * 2 ^ 3 % 256) 3 (b % 2 ^ 4) _ (omega arith) (omega arith) (omega arith)
      (omega arith) (omega arith)
unpack_digits a b r (suc (suc (suc (suc (suc (suc zero)))))) h ha hb =
    crossing (a / 2 ^ 6) (b * 2 ^ 2 % 256) 2 (b % 2 ^ 5) _ (omega arith) (omega arith) (omega arith)
      (omega arith) (omega arith)
unpack_digits a b r (suc (suc (suc (suc (suc (suc (suc zero))))))) h ha hb =
    crossing (a / 2 ^ 7) (b * 2 ^ 1 % 256) 1 (b % 2 ^ 6) _ (omega arith) (omega arith) (omega arith)
      (omega arith) (omega arith)
unpack_digits a b r (suc (suc (suc (suc (suc (suc (suc (suc q)))))))) h ha hb = absurd (omega arith)

-- One round reads seven bits from bit `8 p + q` on.
unpack_at_lem :
    (packed : List ℕ) (p q : ℕ)
    → q < 8
    → 8 * p + q + 7 ≤ 8 * length packed
    → All IsByte packed
    → unpack_at packed p q ≡ value packed / 2 ^ (8 * p + q) % 128
unfolding unpack_at
unpack_at_lem packed p q h fits all =
    let digits =
      unpack_digits (get_or packed p 0) (get_or packed (p + 1) 0)
        (value (drop (suc (suc p)) packed)) q h (get_or-IsByte packed p all)
        (get_or-IsByte packed (p + 1) all) in
    rw
      (
        pow-add (8 * p) q,
        ← div-div-eq-div-mul (value packed) (2 ^ (8 * p)) (2 ^ q),
        value-drop packed p all,
        value_parts packed p,
        ← digits,
      )
      (elim (Bool-cases (ltb 1 q)) [
        | inl cross ↦ rw (cross, lt→ltb (p + 1) (length packed) (omega (arith, ltb→lt 1 q cross)))
        | inr inside ↦ rw inside
      ])

-- The first `n` digits of `v` to base 128, the lowest first.
unfoldable pub septets_of : ℕ → ℕ → List ℕ
septets_of zero v = []
septets_of (suc n) v = v % 128 ∷ septets_of n (v / 128)

pub length-septets_of : (n v : ℕ) → length (septets_of n v) ≡ n
unfolding septets_of
length-septets_of zero v = refl
length-septets_of (suc n) v = ap suc (length-septets_of n (v / 128))

unpack_round :
    (packed : List ℕ) (i p q : ℕ)
    → i * 7 ≡ 8 * p + q
    → q < 8
    → i * 7 + 7 ≤ 8 * length packed
    → All IsByte packed
    → unpack_at packed p q ≡ value packed / 2 ^ (i * 7) % 128
unpack_round packed i p q e h fits all = rw e (unpack_at_lem packed p q h (omega arith) all)

unpack_loop_lem :
    (n i : ℕ) (packed : List ℕ)
    → (i + n) * 7 ≤ 8 * length packed
    → All IsByte packed
    → unpack_loop packed i n ≡ septets_of n (value packed / 2 ^ (i * 7))
unfolding unpack_loop septets_of
unpack_loop_lem zero i packed fits all = refl
unpack_loop_lem (suc n) i packed fits all =
    let here : unpack_at packed (i * 7 / 8) (i * 7 % 8) ≡ value packed / 2 ^ (i * 7) % 128 =
      unpack_round packed i (i * 7 / 8) (i * 7 % 8) (omega arith) (omega arith) (omega arith) all in
    let e : (i + 1) * 7 ≡ i * 7 + 7 = omega arith in
    let next : value packed / 2 ^ ((i + 1) * 7) ≡ value packed / 2 ^ (i * 7) / 128 =
      rw (e, pow-add (i * 7) 7) (sym (div-div-eq-div-mul (value packed) (2 ^ (i * 7)) 128)) in
    let rest : unpack_loop packed (i + 1) n ≡ septets_of n (value packed / 2 ^ (i * 7) / 128) =
      rw next at (unpack_loop_lem n (i + 1) packed (omega arith) all) in
    let inside : leb (length packed) (i * 7 / 8) ≡ false = ground arith in
    rw inside (ap₂ ◌∷◌ here rest)

-- The bytes are one number, the first byte lowest, and the septets that are unpacked are its
-- lowest digits to base 128: as many as are asked for, but never more than the bytes hold.
pub unpack_gsm7_lem :
    (packed : List ℕ) (n : ℕ)
    → All IsByte packed
    → unpack_gsm7 packed n ≡ septets_of (min n (length packed * 8 / 7)) (value packed)
unfolding unpack_gsm7
unpack_gsm7_lem packed n all =
    let whole : value packed / 2 ^ (0 * 7) ≡ value packed = omega arith in
    elim (Bool-cases (ltb (length packed * 8 / 7) n)) [
      | inl more ↦
          let e : min n (length packed * 8 / 7) ≡ length packed * 8 / 7 = ground arith in
          rw (more, e, unpack_loop_lem (length packed * 8 / 7) 0 packed (omega arith) all, whole)
      | inr fits ↦
          let e : min n (length packed * 8 / 7) ≡ n = ground arith in
          rw (fits, e, unpack_loop_lem n 0 packed (ground arith) all, whole)
    ]
