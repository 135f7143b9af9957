-- ===== src/Prelude/Bits.antt =====
-- Powers of two, masks of a byte, and `bit_or` of numbers that share no bit.
use mathlib.Core.Path.{◌≡◌, refl}
use mathlib.Core.Bool.{Bool, true, ◌&&◌}
use native.Mathlib.Nat.{pow-suc}
use native.Mathlib.Omega.{arith}
use sms_gate.Prelude.Tests.{◌==◌}
use Prim.Native.Nat.{
  ℕ, ◌^◌, ◌≤◌, ◌<◌, ◌+◌, ◌*◌, ◌/◌, ◌%◌, zero, suc, bit_and, bit_or, bit_or-bitwise, digits, max,
}

pub pow-add : (a b : ℕ) → 2 ^ (a + b) ≡ 2 ^ a * 2 ^ b
pow-add zero b = let e : 0 + b ≡ b = omega arith in rw e (omega arith)
pow-add (suc a) b =
    let e : suc a + b ≡ suc (a + b) = omega arith in
    rw (e, pow-suc 2 (a + b), pow-suc 2 a) (omega (arith, pow-add a b))

abbrev or_digits : ℕ → ℕ → ℕ → ℕ
or_digits fuel x y = digits (λ z. z) max fuel x y

-- Fuel beyond the number itself changes nothing.
or_digits_fuel : (x y fuel : ℕ) → x ≤ fuel → or_digits fuel x y ≡ or_digits x x y
or_digits_fuel = λ x y fuel enough. or_digits_same fuel x x y enough (omega arith)
  where
    or_digits_same :
        (fuel more x y : ℕ) → x ≤ fuel → x ≤ more → or_digits fuel x y ≡ or_digits more x y
    or_digits_same zero zero x y h k = refl
    or_digits_same zero (suc more) zero y h k = refl
    or_digits_same zero (suc more) (suc x) y h k = absurd (omega arith)
    or_digits_same (suc fuel) zero zero y h k = refl
    or_digits_same (suc fuel) zero (suc x) y h k = absurd (omega arith)
    or_digits_same (suc fuel) (suc more) zero y h k = refl
    or_digits_same (suc fuel) (suc more) (suc x) y h k =
        let half = suc x / 2 in
        omega (arith, or_digits_same fuel more half (y / 2) (omega arith) (omega arith))

pub zero-bit_or : (y : ℕ) → bit_or 0 y ≡ y
zero-bit_or y = bit_or-bitwise 0 y

bit_or_halves : (x y : ℕ) → bit_or x y ≡ max (x % 2) (y % 2) + 2 * bit_or (x / 2) (y / 2)
bit_or_halves zero y = omega (arith, zero-bit_or y, zero-bit_or (y / 2))
bit_or_halves (suc x) y =
    let half = suc x / 2 in
    omega (
      arith,
      or_digits_fuel half (y / 2) x (omega arith),
      bit_or-bitwise half (y / 2),
      bit_or-bitwise (suc x) y,
    )

pub bit_or_disjoint : (k x y : ℕ) → x < 2 ^ k → bit_or x (y * 2 ^ k) ≡ x + y * 2 ^ k
bit_or_disjoint zero x y h = let e : x ≡ 0 = omega arith in rw (e, zero-bit_or) (omega arith)
bit_or_disjoint (suc k) x y h =
    let twice : y * 2 ^ suc k ≡ y * 2 ^ k * 2 = rw pow-suc (omega arith) in
    let half : y * 2 ^ k * 2 / 2 ≡ y * 2 ^ k = omega arith in
    let small : x / 2 < 2 ^ k = omega (arith, pow-suc 2 k) in
    rw twice (
      omega
        (arith, rw half at (bit_or_halves x (y * 2 ^ k * 2)), bit_or_disjoint k (x / 2) y small))

-- Over a small range, check every value by evaluation.
module _ (f g : ℕ → ℕ) where
  unfoldable pub agree_below : ℕ → Bool
  agree_below zero = true
  agree_below (suc n) = f n == g n && agree_below n

  pub agree_below→eq : (n : ℕ) → agree_below n ≡ true → (i : ℕ) → i < n → f i ≡ g i
  unfolding agree_below
  agree_below→eq zero e i h = absurd (omega arith)
  agree_below→eq (suc n) e i h = ground (arith, agree_below→eq n (ground arith) i)

pub bit_and-0x7f : (b : ℕ) → b < 256 → bit_and b 0x7f ≡ b % 128
unfolding agree_below
bit_and-0x7f = agree_below→eq (λ b. bit_and b 0x7f) (λ b. b % 128) 256 refl

pub bit_and-0x0f : (b : ℕ) → b < 256 → bit_and b 0x0f ≡ b % 16
unfolding agree_below
bit_and-0x0f = agree_below→eq (λ b. bit_and b 0x0f) (λ b. b % 16) 256 refl

pub bit_and-0x01 : (b : ℕ) → b < 256 → bit_and b 1 ≡ b % 2
unfolding agree_below
bit_and-0x01 = agree_below→eq (λ b. bit_and b 1) (λ b. b % 2) 256 refl

pub bit_and-0x80 : (b : ℕ) → b < 256 → bit_and b 0x80 ≡ b / 128 * 128
unfolding agree_below
bit_and-0x80 = agree_below→eq (λ b. bit_and b 0x80) (λ b. b / 128 * 128) 256 refl
