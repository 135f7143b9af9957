-- ===== src/Pdu/Septets/Stream.antt =====
-- A slice of bytes as one number, its first byte lowest; a slice of septets likewise. Both routines
-- are read through these numbers.
use sms_gate.Prelude.{
  ℕ, zero, suc, ◌+◌, ◌-◌, ◌*◌, ◌^◌, ◌≤◌, ◌<◌, ◌≡◌, refl, sym, ap, ◌∙◌, List, [], ◌∷◌, length,
  get_or, set, replicate, All, arith,
}
use sms_gate.Prelude.Bits.{pow-add, bit_or_disjoint}
use sms_gate.Pdu.Septets.{or_at}

abbrev pub value : List ℕ → ℕ
value [] = 0
value (b ∷ bs) = b + 256 * value bs

abbrev pub septet_value : List ℕ → ℕ
septet_value [] = 0
septet_value (c ∷ cs) = c + 128 * septet_value cs

pub next_byte : (p : ℕ) → 2 ^ (8 * suc p) ≡ 256 * 2 ^ (8 * p)
next_byte p = let e : 8 * suc p ≡ 8 + 8 * p = omega arith in rw e (pow-add 8 (8 * p))

pub value-replicate : (n : ℕ) → value (replicate n 0) ≡ 0
value-replicate zero = refl
value-replicate (suc n) = omega (arith, value-replicate n)

pub length-set : (xs : List ℕ) (p v : ℕ) → length (set xs p v) ≡ length xs
length-set [] p v = refl
length-set (x ∷ xs) zero v = refl
length-set (x ∷ xs) (suc p) v = ap suc (length-set xs p v)

value-set :
    (xs : List ℕ) (p v : ℕ)
    → p < length xs
    → value (set xs p v) + get_or xs p 0 * 2 ^ (8 * p) ≡ value xs + v * 2 ^ (8 * p)
value-set [] p v h = elim h [ ]
value-set (x ∷ xs) zero v h = omega arith
value-set (x ∷ xs) (suc p) v h = rw next_byte (omega (arith, value-set xs p v (omega arith)))

get_or-le-value : (xs : List ℕ) (p : ℕ) → get_or xs p 0 * 2 ^ (8 * p) ≤ value xs
get_or-le-value [] p = omega arith
get_or-le-value (x ∷ xs) zero = omega arith
get_or-le-value (x ∷ xs) (suc p) = rw next_byte (omega (arith, get_or-le-value xs p))

-- A number below 2 ^ (8 p + q) leaves less than 2 ^ q in its byte `p`.
pub get_or-lt : (xs : List ℕ) (p q : ℕ) → value xs < 2 ^ (8 * p + q) → get_or xs p 0 < 2 ^ q
get_or-lt xs p q h = let bound = rw (pow-add (8 * p) q) at h in grind (arith, get_or-le-value xs p)

-- An OR of `y` into bit `q` of byte `p`, above all that is there, adds it to the number.
pub value-or_at :
    (xs : List ℕ) (p q y : ℕ)
    → p < length xs
    → value xs < 2 ^ (8 * p + q)
    → value (or_at xs p (y * 2 ^ q)) ≡ value xs + y * 2 ^ (8 * p + q)
value-or_at xs p q y h lt =
    rw (bit_or_disjoint q (get_or xs p 0) y (get_or-lt xs p q lt), pow-add (8 * p) q)
      (omega (arith, value-set xs p (get_or xs p 0 + y * 2 ^ q) h))

abbrev pub IsByte : ℕ → Type 0
IsByte b = b < 256

All-set : (xs : List ℕ) (p v : ℕ) → All IsByte xs → IsByte v → All IsByte (set xs p v)
All-set [] p v h k = h
All-set (x ∷ xs) zero v h k = (k, h.1)
All-set (x ∷ xs) (suc p) v h k = (h.0, All-set xs p v h.1 k)

pub All-replicate : (n : ℕ) → All IsByte (replicate n 0)
All-replicate zero = tt
All-replicate (suc n) = (omega arith, All-replicate n)

pub shift_room : (v r w m : ℕ) → v < w → r < m → v + r * w < w * m
shift_room v r w m h k = grind arith

IsByte-shift : (v y q : ℕ) → q ≤ 8 → v < 2 ^ q → y < 2 ^ (8 - q) → IsByte (v + y * 2 ^ q)
IsByte-shift v y q hq h k =
    let e : q + (8 - q) ≡ 8 = omega arith in
    let whole : 2 ^ q * 2 ^ (8 - q) ≡ 256 = sym (pow-add q (8 - q)) ∙ ap (λ (n : ℕ). 2 ^ n) e in
    omega (arith, shift_room v y (2 ^ q) (2 ^ (8 - q)) h k)

-- The OR stays a byte if `y` has no more bits than fit above bit `q`.
pub All-or_at :
    (xs : List ℕ) (p q y : ℕ)
    → q ≤ 8
    → value xs < 2 ^ (8 * p + q)
    → y < 2 ^ (8 - q)
    → All IsByte xs
    → All IsByte (or_at xs p (y * 2 ^ q))
All-or_at xs p q y hq lt hy all =
    rw (bit_or_disjoint q (get_or xs p 0) y (get_or-lt xs p q lt))
      (All-set xs p _ all (IsByte-shift (get_or xs p 0) y q hq (get_or-lt xs p q lt) hy))
