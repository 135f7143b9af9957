-- ===== src/Prelude/Strings.antt =====
-- What the code uses of Go's `strings`, `strconv` and `fmt.Sscanf`, on byte strings: ASCII for the white
-- space, and 64 bits for the numbers.
use Prim.Native.Nat.{ℕ, zero, suc, ◌+◌, ◌-◌, ◌*◌, ◌/◌, ◌%◌, ◌^◌}
use mathlib.Core.Bool.{Bool, true, false, ◌&&◌, ◌||◌}
use mathlib.Core.List.{List, [], ◌∷◌}
use mathlib.Core.Option.{Option, none, some}
use sms_gate.Prelude.Int.{ℤ, pos, negsuc}
use sms_gate.Prelude.Lists.{length, drop}
use sms_gate.Prelude.Tests.{◌==◌, leb, ltb, if◌then◌else◌}

-- strings.TrimSpace.
abbrev pub is_space : ℕ → Bool
is_space c = (leb 9 c && leb c 13) || c == 32

unfoldable pub trim_left : List ℕ → List ℕ
trim_left [] = []
trim_left (c ∷ s) = let rest = trim_left s in if is_space c then rest else c ∷ s

unfoldable pub trim_right : List ℕ → List ℕ
trim_right [] = []
trim_right (c ∷ s) =
    let rest = trim_right s in if is_space c && length rest == 0 then [] else c ∷ rest

unfoldable pub trim_space : List ℕ → List ℕ
unfolding trim_left trim_right
trim_space s = trim_right (trim_left s)

-- strings.HasPrefix and strings.TrimPrefix, the prefix first.
unfoldable pub has_prefix : List ℕ → List ℕ → Bool
has_prefix [] s = true
has_prefix (p ∷ prefix) [] = false
has_prefix (p ∷ prefix) (c ∷ s) = p == c && has_prefix prefix s

unfoldable pub trim_prefix : List ℕ → List ℕ → List ℕ
unfolding has_prefix
trim_prefix prefix s = if has_prefix prefix s then drop (length prefix) s else s

-- strings.Split at one byte: the first piece, and those after it.
unfoldable pub split_from : ℕ → List ℕ → List ℕ × List (List ℕ)
split_from sep [] = ([], [])
split_from sep (c ∷ s) =
    let (piece, pieces) = split_from sep s in
    if c == sep then ([], piece ∷ pieces) else (c ∷ piece, pieces)

unfoldable pub split : ℕ → List ℕ → List (List ℕ)
unfolding split_from
split sep s = let (piece, pieces) = split_from sep s in piece ∷ pieces

-- strings.ReplaceAll of one byte by nothing.
unfoldable pub without : ℕ → List ℕ → List ℕ
without b [] = []
without b (c ∷ s) = let rest = without b s in if c == b then rest else c ∷ rest

abbrev pub is_digit : ℕ → Bool
is_digit c = leb b'0' c && leb c b'9'

-- The leading digits as a number, from the number read so far, and the rest.
unfoldable pub digits_from : ℕ → List ℕ → ℕ × List ℕ
digits_from acc [] = (acc, [])
digits_from acc (c ∷ s) =
    let rest = digits_from (acc * 10 + (c - b'0')) s in if is_digit c then rest else (acc, c ∷ s)

-- The integer of a sign and a size, if 64 bits hold it.
abbrev pub signed64 : Bool → ℕ → Option ℤ
signed64 false n = if ltb n (2 ^ 63) then some (pos n) else none
signed64 true zero = some (pos 0)
signed64 true (suc n) = if ltb n (2 ^ 63) then some (negsuc n) else none

abbrev pub with_rest : Option ℤ → List ℕ → Option (ℤ × List ℕ)
with_rest none rest = none
with_rest (some n) rest = some (n, rest)

-- At least one digit, then as many as there are.
unfoldable pub scan_digits : Bool → List ℕ → Option (ℤ × List ℕ)
unfolding digits_from
scan_digits negative [] = none
scan_digits negative (c ∷ s) =
    let (n, rest) = digits_from 0 (c ∷ s) in
    if is_digit c then with_rest (signed64 negative n) rest else none

-- An optional sign and digits.
unfoldable pub scan_signed : List ℕ → Option (ℤ × List ℕ)
unfolding scan_digits
scan_signed [] = none
scan_signed (c ∷ s) =
    if c == b'-'
    then scan_digits true s
    else (if c == b'+' then scan_digits false s else scan_digits false (c ∷ s))

-- strconv.Atoi: all of the text is the number.
abbrev pub if_done : Option (ℤ × List ℕ) → Option ℤ
if_done none = none
if_done (some (n, [])) = some n
if_done (some (n, c ∷ s)) = none

unfoldable pub atoi : List ℕ → Option ℤ
unfolding scan_signed
atoi s = if_done (scan_signed s)

-- The verb %d of fmt.Sscanf: blanks before the number are skipped, but no line feed; what follows is left.
unfoldable pub skip_blanks : List ℕ → List ℕ
skip_blanks [] = []
skip_blanks (c ∷ s) =
    let rest = skip_blanks s in if is_space c && ltb 0 (c - 10) || c == 9 then rest else c ∷ s

unfoldable pub scan_int : List ℕ → Option (ℤ × List ℕ)
unfolding skip_blanks scan_signed
scan_int s = scan_signed (skip_blanks s)

-- strconv.Itoa of a number that is not negative: `fuel` digits at most.
unfoldable pub itoa_from : ℕ → ℕ → List ℕ → List ℕ
itoa_from zero n after = after
itoa_from (suc fuel) n after =
    let more = itoa_from fuel (n / 10) ((b'0' + n % 10) ∷ after) in
    if ltb n 10 then (b'0' + n) ∷ after else more

-- 20 digits are enough for 64 bits.
unfoldable pub itoa : ℕ → List ℕ
unfolding itoa_from
itoa n = itoa_from 20 n []
