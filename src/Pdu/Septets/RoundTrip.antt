-- ===== src/Pdu/Septets/RoundTrip.antt =====
-- Packing and unpacking together, with and without fill bits.
use native.Mathlib.Nat.{mul-div_left, one-le-pow}
use sms_gate.Prelude.{
  ℕ, zero, suc, ◌+◌, ◌-◌, ◌*◌, ◌/◌, ◌%◌, ◌^◌, ◌≤◌, ◌<◌, ◌≡◌, ◌≢◌, refl, sym, ap, ◌∙◌, List, [], ◌∷◌,
  length, take, take_all, get_or, min, All, arith,
}
use sms_gate.Pdu.Septets.{unpack_gsm7, pack_gsm7, repack_with_fill}
use sms_gate.Pdu.Septets.Stream.{value, septet_value, IsByte}
use sms_gate.Pdu.Septets.Pack.{IsSeptet, value-pack_gsm7, length-pack_gsm7, All-pack_gsm7}
use sms_gate.Pdu.Septets.Unpack.{septets_of, length-septets_of, unpack_gsm7_lem}
use sms_gate.Pdu.Septets.Fill.{
  value-repack_with_fill, length-repack_with_fill, All-repack_with_fill,
}

-- The digits of the number that a slice of septets stands for are those septets.
septets_of-septet_value :
    (n : ℕ) (cs : List ℕ)
    → n ≤ length cs
    → All IsSeptet cs
    → septets_of n (septet_value cs) ≡ take n cs
unfolding septets_of
septets_of-septet_value zero cs h s = refl
septets_of-septet_value (suc n) [] h s = absurd (omega arith)
septets_of-septet_value (suc n) (c ∷ cs) h (sc, s) =
    let first : (c + 128 * septet_value cs) % 128 ≡ c = omega arith in
    let rest : (c + 128 * septet_value cs) / 128 ≡ septet_value cs = omega arith in
    rw (first, rest, septets_of-septet_value n cs (omega arith) s)

-- Septets below 128, packed and unpacked, are the same septets: all of them, or the first `n`.
pub unpack_gsm7-pack_gsm7 :
    (cs : List ℕ) (n : ℕ)
    → All IsSeptet cs
    → n ≤ length cs
    → unpack_gsm7 (pack_gsm7 cs) n ≡ take n cs
unpack_gsm7-pack_gsm7 cs n s h =
    let room : min n (length (pack_gsm7 cs) * 8 / 7) ≡ n = omega (arith, length-pack_gsm7 cs) in
    rw (unpack_gsm7_lem (pack_gsm7 cs) n (All-pack_gsm7 cs s), room, value-pack_gsm7 cs s)
      (septets_of-septet_value n cs h s)

-- Unpacking any bytes never yields more septets than they hold, and yields exactly the number asked
-- for when they hold that many.
pub length-unpack_gsm7 :
    (packed : List ℕ) (n : ℕ)
    → All IsByte packed
    → length (unpack_gsm7 packed n) ≡ min n (length packed * 8 / 7)
length-unpack_gsm7 packed n all = rw (unpack_gsm7_lem packed n all) (length-septets_of _ _)

-- Behind `f` fill bits the septets stand in `length` bytes that hold nothing else: read from bit `f`
-- on, they are the ones that were packed.
pub septets_of-repack_with_fill :
    (cs : List ℕ) (f : ℕ)
    → All IsSeptet cs
    → (septets_of (length cs) (value (repack_with_fill cs f) / 2 ^ f) ≡ cs)
      × (length (repack_with_fill cs f) ≡ (length cs * 7 + f + 7) / 8)
      × All IsByte (repack_with_fill cs f)
septets_of-repack_with_fill cs f s =
    let shifted : septet_value cs * 2 ^ f / 2 ^ f ≡ septet_value cs =
      mul-div_left (septet_value cs) (one-le-pow f 2 (omega arith)) in
    (
      rw (value-repack_with_fill cs f s, shifted)
          (septets_of-septet_value (length cs) cs (omega arith) s
            ∙ take_all (length cs) cs (omega arith)),
      length-repack_with_fill cs f s,
      All-repack_with_fill cs f s,
    )

-- Unpacked from bit 0 although one fill bit is in front, the septets are not those that were packed,
-- whenever the first one is not 0.
pub unpack_gsm7-repack_with_fill :
    (c : ℕ) (cs : List ℕ) (n : ℕ)
    → All IsSeptet (c ∷ cs)
    → 0 < c
    → unpack_gsm7 (repack_with_fill (c ∷ cs) 1) (suc n) ≢ take (suc n) (c ∷ cs)
unfolding septets_of
unpack_gsm7-repack_with_fill c cs n s h e =
    let packed : List ℕ = repack_with_fill (c ∷ cs) 1 in
    let m : ℕ = min (suc n) (length packed * 8 / 7) - 1 in
    let some_room : min (suc n) (length packed * 8 / 7) ≡ suc m =
      omega (arith, length-repack_with_fill (c ∷ cs) 1 s) in
    let unpacked = unpack_gsm7_lem packed (suc n) (All-repack_with_fill (c ∷ cs) 1 s) in
    let first = ap (λ (xs : List ℕ). get_or xs 0 0) (sym (rw some_room at unpacked) ∙ e) in
    omega (arith, first, value-repack_with_fill (c ∷ cs) 1 s)
