-- ===== src/Pdu/Septets/Indexed.antt =====
-- `unpackGSM7` (internal/at/pdu.go) with the indices of its input checked: where Go panics the result
-- is `none`.
use Prim.Native.Nat.{bit_and, bit_or}
use sms_gate.Prelude.{
  ℕ, zero, suc, ◌+◌, ◌-◌, ◌*◌, ◌/◌, ◌%◌, ◌<◌, ◌≡◌, refl, Bool-cases, inl, inr, ◌&&◌, Option, none,
  some, List, [], ◌∷◌, length, get_or, take, drop, replicate, ltb, leb, arith, if◌then◌else◌,
}
use sms_gate.Pdu.Septets.{shl8, shr8, unpack_at, unpack_loop, unpack_gsm7}

infixl 5 ◌>>=◌
-- What panics ends here.
unfoldable pub ◌>>=◌ {ℓ κ} : {A : Type ℓ} {B : Type κ} → Option A → (A → Option B) → Option B
none >>= k = none
some x >>= k = k x

-- `xs[i]`
unfoldable pub index : List ℕ → ℕ → Option ℕ
index xs i = if ltb i (length xs) then some (get_or xs i 0) else none

-- `xs[lo:hi]`
unfoldable pub cut : List ℕ → ℕ → ℕ → Option (List ℕ)
cut xs lo hi = if leb lo hi && leb hi (length xs) then some (take (hi - lo) (drop lo xs)) else none

unfoldable pub try_unpack_at : List ℕ → ℕ → ℕ → Option ℕ
unfolding index ◌>>=◌
try_unpack_at packed byte_pos bit_pos = index packed byte_pos >>= λ first.
    let b = bit_and (shr8 first bit_pos) 0x7f in
    if ltb 1 bit_pos && ltb (byte_pos + 1) (length packed)
    then (index packed (byte_pos + 1) >>= λ second.
        some (bit_or b (bit_and (shl8 second (8 - bit_pos)) 0x7f)))
    else some b

unfoldable pub try_unpack_loop : List ℕ → ℕ → ℕ → Option (List ℕ)
unfolding try_unpack_at ◌>>=◌
try_unpack_loop packed i zero = some []
try_unpack_loop packed i (suc n) =
    let rest = try_unpack_loop packed (i + 1) n in
    if leb (length packed) (i * 7 / 8) then some (replicate (suc n) 0) else (do
      septet ← try_unpack_at packed (i * 7 / 8) (i * 7 % 8)
      septets ← rest
      some (septet ∷ septets))

unfoldable pub try_unpack_gsm7 : List ℕ → ℕ → Option (List ℕ)
unfolding try_unpack_loop
try_unpack_gsm7 packed n_chars =
    let max_chars = length packed * 8 / 7 in
    try_unpack_loop packed 0 (if ltb max_chars n_chars then max_chars else n_chars)

try_unpack_at_lem :
    (packed : List ℕ) (byte_pos bit_pos : ℕ)
    → byte_pos < length packed
    → try_unpack_at packed byte_pos bit_pos ≡ some (unpack_at packed byte_pos bit_pos)
unfolding try_unpack_at unpack_at index ◌>>=◌
try_unpack_at_lem packed byte_pos bit_pos h = ground arith

try_unpack_loop_lem :
    (packed : List ℕ) (i n : ℕ) → try_unpack_loop packed i n ≡ some (unpack_loop packed i n)
unfolding try_unpack_loop unpack_loop ◌>>=◌
try_unpack_loop_lem packed i zero = refl
try_unpack_loop_lem packed i (suc n) = elim (Bool-cases (leb (length packed) (i * 7 / 8))) [
  | inl end ↦ rw end refl
  | inr inside ↦ rw (
    inside,
    try_unpack_at_lem packed (i * 7 / 8) (i * 7 % 8) (ground arith),
    try_unpack_loop_lem packed (i + 1) n,
  )
]

pub try_unpack_gsm7_lem :
    (packed : List ℕ) (n : ℕ) → try_unpack_gsm7 packed n ≡ some (unpack_gsm7 packed n)
unfolding try_unpack_gsm7 unpack_gsm7
try_unpack_gsm7_lem packed n = try_unpack_loop_lem packed 0 _
