-- ===== src/Prelude/Recent.antt =====
-- A slice that is bounded by dropping its first element before an append, as the duplicate detector
-- and the dead-letter queue both do. With a bound above 0 `entries[1:]` is taken of a slice that is
-- not empty.
use Prim.Native.Nat.{ℕ, zero, suc, ◌-◌, ◌≤◌, ◌<◌, min}
use mathlib.Core.Path.{◌≡◌, refl, sym}
use mathlib.Core.List.{List, [], ◌∷◌, ◌++◌}
use native.Mathlib.Omega.{arith}
use native.Mathlib.Decide.{dec_lt}
use sms_gate.Prelude.Tests.{leb, if◌then◌else◌}
use sms_gate.Prelude.Lists.{length, drop, length-append, length-drop}

module _ {ℓ} {A : Type ℓ} where
  unfoldable pub push_recent : ℕ → List A → A → List A
  push_recent max_size entries e =
      if leb max_size (length entries) then drop 1 entries ++ e ∷ [] else entries ++ e ∷ []

  -- The last `n` elements.
  unfoldable pub last_n : ℕ → List A → List A
  last_n n xs = drop (length xs - n) xs

  pub length-last_n : (n : ℕ) (xs : List A) → length (last_n n xs) ≡ min n (length xs)
  unfolding last_n
  length-last_n n xs = omega (arith, length-drop (length xs - n) xs)

  pub drop-append : (k : ℕ) (xs ys : List A) → k ≤ length xs → drop k (xs ++ ys) ≡ drop k xs ++ ys
  drop-append zero xs ys h = refl
  drop-append (suc k) [] ys h = absurd (omega arith)
  drop-append (suc k) (x ∷ xs) ys h = drop-append k xs ys (omega arith)

  drop_one-drop : (k : ℕ) (xs : List A) → drop 1 (drop k xs) ≡ drop (suc k) xs
  drop_one-drop zero [] = refl
  drop_one-drop zero (x ∷ xs) = refl
  drop_one-drop (suc k) [] = refl
  drop_one-drop (suc k) (x ∷ xs) = drop_one-drop k xs

  last_n_short : (n : ℕ) (xs : List A) → length xs ≤ n → last_n n xs ≡ xs
  unfolding last_n
  last_n_short n xs h = let e : length xs - n ≡ 0 = omega arith in rw e

  last_n-append_full :
      (n : ℕ) (xs : List A) (e : A)
      → 0 < n
      → n ≤ length xs
      → last_n n (xs ++ e ∷ []) ≡ drop (suc (length xs - n)) xs ++ e ∷ []
  unfolding last_n
  last_n-append_full n xs e h full =
      let k : length (xs ++ e ∷ []) - n ≡ suc (length xs - n) =
        omega (arith, length-append xs (e ∷ [])) in
      rw k (drop-append (suc (length xs - n)) xs (e ∷ []) (omega arith))

  push_full :
      (n : ℕ) (xs : List A) (e : A)
      → n ≤ length xs
      → push_recent n (last_n n xs) e ≡ drop (suc (length xs - n)) xs ++ e ∷ []
  unfolding push_recent last_n
  push_full n xs e full =
      ground (arith, length-drop (length xs - n) xs, drop_one-drop (length xs - n) xs)

  push_short : (n : ℕ) (xs : List A) (e : A) → length xs < n → push_recent n xs e ≡ xs ++ e ∷ []
  unfolding push_recent
  push_short n xs e short = ground arith

  pub push_recent-last_n :
      (n : ℕ) (xs : List A) (e : A)
      → 0 < n
      → push_recent n (last_n n xs) e ≡ last_n n (xs ++ e ∷ [])
  push_recent-last_n n xs e h = elim (dec_lt (length xs) n) [
    | yes short ↦
        rw
          (
            last_n_short n xs (omega arith),
            last_n_short n (xs ++ e ∷ []) (omega (arith, length-append xs (e ∷ []))),
          )
          (push_short n xs e short)
    | no full ↦
        rw (push_full n xs e (omega arith)) (sym (last_n-append_full n xs e h (omega arith)))
  ]

drop-nil {ℓ} : {A : Type ℓ} (k : ℕ) → drop {A = A} k [] ≡ []
drop-nil zero = refl
drop-nil (suc k) = refl

pub last_n-nil {ℓ} : {A : Type ℓ} (n : ℕ) → last_n {A = A} n [] ≡ []
unfolding last_n
last_n-nil n = drop-nil (0 - n)
