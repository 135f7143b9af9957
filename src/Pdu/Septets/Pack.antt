-- ===== src/Pdu/Septets/Pack.antt =====
-- Packing computes the bytes of the number that the septets stand for.
use Prim.Native.Nat.{bit_or}
use sms_gate.Prelude.{
  ℕ, zero, suc, ◌+◌, ◌-◌, ◌*◌, ◌/◌, ◌%◌, ◌^◌, ◌≤◌, ◌<◌, ◌≡◌, refl, ap, ◌∙◌, inl, inr, List, [], ◌∷◌,
  ◌&&◌, length, get_or, replicate, All, arith, length-replicate, ltb, ltb→lt, lt→ltb, Bool-cases,
}
use sms_gate.Prelude.Bits.{pow-add}
use sms_gate.Pdu.Septets.{or_at, shl8, shr8, pack_at, pack_loop, pack_gsm7}
use sms_gate.Pdu.Septets.Stream.{
  value, septet_value, value-replicate, length-set, value-or_at, shift_room, IsByte, All-replicate,
  All-or_at,
}
use mathlib.Core.Path.{subst}
use native.Mathlib.Nat.{div-add-mod, mod-lt, one-le-pow}

abbrev pub IsSeptet : ℕ → Type 0
IsSeptet c = c < 128

-- What a byte keeps of a shifted septet.
shl8_lem : (c q : ℕ) → q < 8 → shl8 c q ≡ c % 2 ^ (8 - q) * 2 ^ q
shl8_lem c zero h = omega arith
shl8_lem c (suc zero) h = omega arith
shl8_lem c (suc (suc zero)) h = omega arith
shl8_lem c (suc (suc (suc zero))) h = omega arith
shl8_lem c (suc (suc (suc (suc zero)))) h = omega arith
shl8_lem c (suc (suc (suc (suc (suc zero))))) h = omega arith
shl8_lem c (suc (suc (suc (suc (suc (suc zero)))))) h = omega arith
shl8_lem c (suc (suc (suc (suc (suc (suc (suc zero))))))) h = omega arith
shl8_lem c (suc (suc (suc (suc (suc (suc (suc (suc q)))))))) h = absurd (omega arith)

-- A septet at bit 0 or 1 stays in its byte.
shl8_low : (c q : ℕ) → q ≤ 1 → IsSeptet c → shl8 c q ≡ c * 2 ^ q
shl8_low c zero h s = omega arith
shl8_low c (suc zero) h s = omega arith
shl8_low c (suc (suc q)) h s = absurd (omega arith)

-- The two parts of a septet that crosses a byte boundary.
join_parts :
    (c p q : ℕ)
    → q < 8
    → c % 2 ^ (8 - q) * 2 ^ (8 * p + q) + c / 2 ^ (8 - q) * 2 ^ (8 * suc p) ≡ c * 2 ^ (8 * p + q)
join_parts c p q h =
    let e : 8 * suc p ≡ (8 * p + q) + (8 - q) = omega arith in
    rw (e, pow-add (8 * p + q) (8 - q))
      (omega (arith, ap (λ (t : ℕ). t * 2 ^ (8 * p + q)) (div-add-mod c (2 ^ (8 - q)))))

below_next :
    (v c p q : ℕ)
    → q < 8
    → v < 2 ^ (8 * p + q)
    → v + c % 2 ^ (8 - q) * 2 ^ (8 * p + q) < 2 ^ (8 * suc p + 0)
below_next v c p q h lt =
    let e : 8 * suc p + 0 ≡ (8 * p + q) + (8 - q) = omega arith in
    rw (e, pow-add (8 * p + q) (8 - q))
      (shift_room v (c % 2 ^ (8 - q)) _ _ lt (mod-lt c (one-le-pow (8 - q) 2 (omega arith))))

pack_cross :
    (packed : List ℕ) (p q c : ℕ)
    → q < 8
    → p + 1 < length packed
    → value packed < 2 ^ (8 * p + q)
    → value (or_at (or_at packed p (shl8 c q)) (p + 1) (shr8 c (8 - q)))
      ≡ value packed + c * 2 ^ (8 * p + q)
pack_cross packed p q c h fits lt = rw (shl8_lem c q h, high_shift) (second ∙ total)
  where
    low : ℕ
    low = c % 2 ^ (8 - q)

    high : ℕ
    high = c / 2 ^ (8 - q)

    packed' : List ℕ
    packed' = or_at packed p (low * 2 ^ q)

    first : value packed' ≡ value packed + low * 2 ^ (8 * p + q)
    first = value-or_at packed p q low (omega arith) lt

    high_shift : shr8 c (8 - q) ≡ high * 2 ^ 0
    high_shift = omega arith

    next : p + 1 ≡ suc p
    next = omega arith

    last : 8 * (p + 1) + 0 ≡ 8 * suc p
    last = omega arith

    second :
        value (or_at packed' (p + 1) (high * 2 ^ 0)) ≡ value packed' + high * 2 ^ (8 * (p + 1) + 0)
    second =
        value-or_at packed' (p + 1) 0 high (rw length-set fits)
          (rw (first, next) (below_next (value packed) c p q h lt))

    total : value packed' + high * 2 ^ (8 * (p + 1) + 0) ≡ value packed + c * 2 ^ (8 * p + q)
    total = rw (first, last) (omega (arith, join_parts c p q h))

-- One septet adds its bits above all that is there.
value-pack_at :
    (packed : List ℕ) (p q c : ℕ)
    → q < 8
    → 8 * p + q + 7 ≤ 8 * length packed
    → IsSeptet c
    → value packed < 2 ^ (8 * p + q)
    → value (pack_at packed p q c) ≡ value packed + c * 2 ^ (8 * p + q)
unfolding pack_at
value-pack_at packed p q c h fits s lt = elim (Bool-cases (ltb 1 q)) [
  | inl cross ↦
      let in_range : p + 1 < length packed = omega (arith, ltb→lt 1 q cross) in
      rw (cross, length-set, lt→ltb (p + 1) (length packed) in_range)
        (pack_cross packed p q c h in_range lt)
  | inr inside ↦
      rw (inside, shl8_low c q (ground arith) s) (value-or_at packed p q c (omega arith) lt)
]

length-pack_at : (packed : List ℕ) (p q c : ℕ) → length (pack_at packed p q c) ≡ length packed
unfolding pack_at
length-pack_at packed p q c = ground (
  arith,
  length-set packed p (bit_or (get_or packed p 0) (shl8 c q)),
  length-set (or_at packed p (shl8 c q)) (p + 1)
      (bit_or (get_or (or_at packed p (shl8 c q)) (p + 1) 0) (shr8 c (8 - q))),
)

-- The same at the bit that the loop computes.
value_round :
    (packed : List ℕ) (i p q c : ℕ)
    → i * 7 ≡ 8 * p + q
    → q < 8
    → i * 7 + 7 ≤ 8 * length packed
    → IsSeptet c
    → value packed < 2 ^ (i * 7)
    → value (pack_at packed p q c) ≡ value packed + c * 2 ^ (i * 7)
value_round packed i p q c e h fits s lt =
    rw e (value-pack_at packed p q c h (omega arith) s (rw e at lt))

next_room : (i v c : ℕ) → v < 2 ^ (i * 7) → IsSeptet c → v + c * 2 ^ (i * 7) < 2 ^ ((i + 1) * 7)
next_room i v c lt s =
    let e : (i + 1) * 7 ≡ i * 7 + 7 = omega arith in
    rw (e, pow-add (i * 7) 7) (shift_room v c (2 ^ (i * 7)) 128 lt s)

-- The loop writes the septets in order from bit `7 i` on.
value-pack_loop :
    (chars packed : List ℕ) (i : ℕ)
    → (i + length chars) * 7 ≤ 8 * length packed
    → All IsSeptet chars
    → value packed < 2 ^ (i * 7)
    → value (pack_loop packed i chars) ≡ value packed + septet_value chars * 2 ^ (i * 7)
unfolding pack_loop
value-pack_loop [] packed i fits s lt = omega arith
value-pack_loop (c ∷ chars) packed i fits (sc, s) lt =
    let packed' = pack_at packed (i * 7 / 8) (i * 7 % 8) c in
    let len : length packed' ≡ length packed = length-pack_at packed (i * 7 / 8) (i * 7 % 8) c in
    let here : value packed' ≡ value packed + c * 2 ^ (i * 7) =
      value_round packed i (i * 7 / 8) (i * 7 % 8) c (omega arith) (omega arith) (omega arith) sc
        lt in
    let rest =
      value-pack_loop chars packed' (i + 1) (omega arith) s
        (rw here (next_room i (value packed) c lt sc)) in
    let e : (i + 1) * 7 ≡ i * 7 + 7 = omega arith in
    omega (arith, rw (e, pow-add (i * 7) 7) at rest, here)

length-pack_loop :
    (chars packed : List ℕ) (i : ℕ) → length (pack_loop packed i chars) ≡ length packed
unfolding pack_loop
length-pack_loop [] packed i = refl
length-pack_loop (c ∷ chars) packed i =
    length-pack_loop chars (pack_at packed (i * 7 / 8) (i * 7 % 8) c) (i + 1)
    ∙ length-pack_at packed (i * 7 / 8) (i * 7 % 8) c

All-pack_at :
    (packed : List ℕ) (p q c : ℕ)
    → q < 8
    → IsSeptet c
    → value packed < 2 ^ (8 * p + q)
    → All IsByte packed
    → All IsByte (pack_at packed p q c)
unfolding pack_at
All-pack_at packed p q c h s lt all =
    rw (shl8_lem c q h) (elim (Bool-cases (ltb 1 q && ltb (p + 1) (length packed'))) [
      | inl cross ↦
          rw (cross, high_shift)
            (All-or_at packed' (p + 1) 0 high (omega arith)
              (below
                (ground (arith, length-set packed p (bit_or (get_or packed p 0) (low * 2 ^ q)))))
              (omega arith) first)
      | inr inside ↦ rw inside first
    ])
  where
    low : ℕ
    low = c % 2 ^ (8 - q)

    high : ℕ
    high = c / 2 ^ (8 - q)

    packed' : List ℕ
    packed' = or_at packed p (low * 2 ^ q)

    first : All IsByte packed'
    first =
        All-or_at packed p q low (omega arith) lt (mod-lt c (one-le-pow (8 - q) 2 (omega arith)))
          all

    high_shift : shr8 c (8 - q) ≡ high * 2 ^ 0
    high_shift = omega arith

    next : p + 1 ≡ suc p
    next = omega arith

    below : p < length packed → value packed' < 2 ^ (8 * (p + 1) + 0)
    below fits =
        rw (value-or_at packed p q low fits lt, next) (below_next (value packed) c p q h lt)

All-pack_loop :
    (chars packed : List ℕ) (i : ℕ)
    → (i + length chars) * 7 ≤ 8 * length packed
    → All IsSeptet chars
    → value packed < 2 ^ (i * 7)
    → All IsByte packed
    → All IsByte (pack_loop packed i chars)
unfolding pack_loop
All-pack_loop [] packed i fits s lt all = all
All-pack_loop (c ∷ chars) packed i fits (sc, s) lt all =
    let p : ℕ = i * 7 / 8 in
    let q : ℕ = i * 7 % 8 in
    let e : i * 7 ≡ 8 * p + q = omega arith in
    let len : length (pack_at packed p q c) ≡ length packed = length-pack_at packed p q c in
    let here = value_round packed i p q c e (omega arith) (omega arith) sc lt in
    All-pack_loop chars (pack_at packed p q c) (i + 1) (omega arith) s
      (rw here (next_room i (value packed) c lt sc))
      (All-pack_at packed p q c (omega arith) sc (subst (λ (t : ℕ). value packed < 2 ^ t) e lt) all)

pub All-pack_gsm7 : (chars : List ℕ) → All IsSeptet chars → All IsByte (pack_gsm7 chars)
unfolding pack_gsm7
All-pack_gsm7 chars s =
    let n : ℕ = (length chars * 7 + 7) / 8 in
    All-pack_loop chars (replicate n 0) 0 (rw length-replicate (omega arith)) s
      (rw (value-replicate n) (omega arith)) (All-replicate n)

pub value-pack_gsm7 :
    (chars : List ℕ) → All IsSeptet chars → value (pack_gsm7 chars) ≡ septet_value chars
unfolding pack_gsm7
value-pack_gsm7 chars s =
    let n : ℕ = (length chars * 7 + 7) / 8 in
    let empty = value-replicate n in
    let e =
      value-pack_loop chars (replicate n 0) 0 (rw length-replicate (omega arith)) s
        (rw empty (omega arith)) in
    omega (arith, e, empty)

pub length-pack_gsm7 : (chars : List ℕ) → length (pack_gsm7 chars) ≡ (length chars * 7 + 7) / 8
unfolding pack_gsm7
length-pack_gsm7 chars = length-pack_loop chars _ 0 ∙ length-replicate _ 0
