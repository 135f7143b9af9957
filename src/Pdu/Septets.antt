-- ===== src/Pdu/Septets.antt =====
-- Septets packed into bytes (internal/at/pdu.go: unpackGSM7, packGSM7, repackWithFill). A byte is a
-- number below 256; `c << k` on a byte drops what passes bit 7, `c >> k` divides. A slice index out
-- of range would panic in Go: Indexed has unpackGSM7 with every index checked, and the theorem that the
-- function here is its value; in the others the loop's own test, or the length of the slice that was made,
-- keeps the index inside.
pub mod Indexed
pub mod Stream
pub mod Pack
pub mod Unpack
pub mod Fill
pub mod RoundTrip
mod Tests
use Prim.Native.Nat.{bit_and, bit_or}
use sms_gate.Prelude.{
  ℕ, zero, suc, ◌+◌, ◌-◌, ◌*◌, ◌/◌, ◌%◌, ◌^◌, Bool, ◌&&◌, List, [], ◌∷◌, ◌++◌, length, get_or, set,
  replicate, ltb, leb, ◌==◌, if◌then◌else◌,
}

-- On a byte.
abbrev pub shl8 : ℕ → ℕ → ℕ
shl8 c k = c * 2 ^ k % 256

abbrev pub shr8 : ℕ → ℕ → ℕ
shr8 c k = c / 2 ^ k

-- One round of `unpackGSM7`, at bit `bit_pos` of byte `byte_pos`.
unfoldable pub unpack_at : List ℕ → ℕ → ℕ → ℕ
unpack_at packed byte_pos bit_pos =
    let b = bit_and (shr8 (get_or packed byte_pos 0) bit_pos) 0x7f in
    if ltb 1 bit_pos && ltb (byte_pos + 1) (length packed)
    then bit_or b (bit_and (shl8 (get_or packed (byte_pos + 1) 0) (8 - bit_pos)) 0x7f)
    else b

-- The loop from `i` with `n` rounds left; what `break` leaves unset in `out` is zero.
unfoldable pub unpack_loop : List ℕ → ℕ → ℕ → List ℕ
unfolding unpack_at
unpack_loop packed i zero = []
unpack_loop packed i (suc n) =
    let rest = unpack_loop packed (i + 1) n in
    if leb (length packed) (i * 7 / 8)
    then replicate (suc n) 0
    else unpack_at packed (i * 7 / 8) (i * 7 % 8) ∷ rest

unfoldable pub unpack_gsm7 : List ℕ → ℕ → List ℕ
unfolding unpack_loop
unpack_gsm7 packed n_chars =
    let max_chars = length packed * 8 / 7 in
    unpack_loop packed 0 (if ltb max_chars n_chars then max_chars else n_chars)

-- `packed[i] |= v`.
abbrev pub or_at : List ℕ → ℕ → ℕ → List ℕ
or_at packed i v = set packed i (bit_or (get_or packed i 0) v)

-- One round of `packGSM7`, at bit `bit_pos` of byte `byte_pos`.
unfoldable pub pack_at : List ℕ → ℕ → ℕ → ℕ → List ℕ
pack_at packed byte_pos bit_pos c =
    let packed' = or_at packed byte_pos (shl8 c bit_pos) in
    if ltb 1 bit_pos && ltb (byte_pos + 1) (length packed')
    then or_at packed' (byte_pos + 1) (shr8 c (8 - bit_pos))
    else packed'

unfoldable pub pack_loop : List ℕ → ℕ → List ℕ → List ℕ
unfolding pack_at
pack_loop packed i [] = packed
pack_loop packed i (c ∷ chars) = pack_loop (pack_at packed (i * 7 / 8) (i * 7 % 8) c) (i + 1) chars

unfoldable pub pack_gsm7 : List ℕ → List ℕ
unfolding pack_loop
pack_gsm7 chars = pack_loop (replicate ((length chars * 7 + 7) / 8) 0) 0 chars

-- The bits of one septet, as `(c >> b) & 1` for `b` from 0 to 6, are written one behind another
-- after the fill bits.
unfoldable pub bits_from : ℕ → ℕ → ℕ → List ℕ
bits_from c b zero = []
bits_from c b (suc n) = bit_and (shr8 c b) 1 ∷ bits_from c (b + 1) n

unfoldable pub septet_bits : List ℕ → List ℕ
unfolding bits_from
septet_bits [] = []
septet_bits (c ∷ chars) = bits_from c 0 7 ++ septet_bits chars

unfoldable pub or_bits : List ℕ → ℕ → List ℕ → List ℕ
or_bits out i [] = out
or_bits out i (bit ∷ bits) =
    or_bits (if bit == 0 then out else or_at out (i / 8) (shl8 1 (i % 8))) (i + 1) bits

unfoldable pub repack_with_fill : List ℕ → ℕ → List ℕ
unfolding septet_bits or_bits
repack_with_fill chars fill_bits =
    let bits = replicate fill_bits 0 ++ septet_bits chars in
    or_bits (replicate ((length bits + 7) / 8) 0) 0 bits
