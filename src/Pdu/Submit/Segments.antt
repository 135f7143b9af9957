-- ===== src/Pdu/Submit/Segments.antt =====
-- Long messages in parts.
use native.Mathlib.Nat.{div-add-mod, mod-lt}
use sms_gate.Prelude.{
  ℕ, zero, suc, ◌+◌, ◌-◌, ◌*◌, ◌/◌, ◌%◌, ◌≤◌, ◌<◌, ◌≡◌, refl, sym, ap, ◌∙◌, inl, inr, false, List,
  [], ◌∷◌, ◌++◌, ltb, leb, length, length-take, length-drop, take, drop, take_all, take-append-drop,
  All, arith, Bool-cases, if◌then◌else◌,
}
use sms_gate.Pdu.Alphabet.{encode_gsm7_text}
use sms_gate.Pdu.Submit.{
  EncodedPdu, Part, slice, parts_from, encode_parts, build_gsm7_pdu, build_ucs2_pdu,
  encode_gsm7_pdus, encode_ucs2_pdus,
}

-- The pieces one behind another.
abbrev pub join : List (List ℕ) → List ℕ
join [] = []
join (piece ∷ pieces) = piece ++ join pieces

-- The parts of a message of `n_parts` pieces, numbered from `i + 1`, each number a byte.
unfoldable pub numbered : (List ℕ → Part → EncodedPdu) → ℕ → ℕ → List (List ℕ) → List EncodedPdu
numbered build n_parts i [] = []
numbered build n_parts i (piece ∷ pieces) =
    build piece (record { ref = 0x42; total = n_parts % 256; part_num = (i + 1) % 256 })
    ∷ numbered build n_parts (i + 1) pieces

-- What splitting into parts is.
pub record Splits (build : List ℕ → Part → EncodedPdu) (limit n_parts i n : ℕ) (chars : List ℕ)
    (pdus : List EncodedPdu) : Type 0 where
  pub pieces : List (List ℕ)
  pub whole : join pieces ≡ chars
  pub count : length pieces ≡ n
  pub fits : All (λ piece. (0 < length piece) × (length piece ≤ limit)) pieces
  pub built : pdus ≡ numbered build n_parts i pieces

drop-drop : (a b : ℕ) (xs : List ℕ) → drop a (drop b xs) ≡ drop (b + a) xs
drop-drop a zero xs = let e : 0 + a ≡ a = omega arith in rw e
drop-drop zero (suc b) [] = let e : suc b + 0 ≡ suc (b + 0) = omega arith in rw e
drop-drop (suc a) (suc b) [] = let e : suc b + suc a ≡ suc (b + suc a) = omega arith in rw e
drop-drop a (suc b) (x ∷ xs) =
    let e : suc b + a ≡ suc (b + a) = omega arith in rw e (drop-drop a b xs)

nil_lem : (xs : List ℕ) → length xs ≤ 0 → [] ≡ xs
nil_lem [] h = refl
nil_lem (x ∷ xs) h = absurd (omega arith)

-- The slice that the loop takes is what is left, up to the limit.
slice_lem :
    (chars : List ℕ) (start limit : ℕ)
    → slice chars start (if ltb (length chars) (start + limit) then length chars else start + limit)
      ≡ take limit (drop start chars)
slice_lem chars start limit = elim (Bool-cases (ltb (length chars) (start + limit))) [
  | inl short ↦
      let all : length (drop start chars) ≤ limit = ground (arith, length-drop start chars) in
      rw (short, take_all limit (drop start chars) all)
        (take_all (length chars - start) (drop start chars)
          (omega (arith, length-drop start chars)))
  | inr long ↦ let e : start + limit - start ≡ limit = omega arith in rw (long, e)
]

module _ (build : List ℕ → Part → EncodedPdu) (limit n_parts : ℕ) where
  rest_next :
      (i : ℕ) (chars : List ℕ) → drop limit (drop (i * limit) chars) ≡ drop ((i + 1) * limit) chars
  rest_next i chars =
      let e : i * limit + limit ≡ (i + 1) * limit = omega arith in
      drop-drop limit (i * limit) chars ∙ rw e

  -- One round in front of the others.
  cons-Splits :
      (n i : ℕ) (chars : List ℕ)
      → 0 < limit
      → 0 < length (drop (i * limit) chars)
      → Splits build limit n_parts
          (i + 1)
          n
          (drop ((i + 1) * limit) chars)
          (parts_from build limit chars n_parts (i + 1) n)
      → Splits build limit n_parts i
          (suc n)
          (drop (i * limit) chars)
          (parts_from build limit chars n_parts i (suc n))
  unfolding parts_from numbered
  cons-Splits n i chars pos_limit more there = record {
    pieces = piece ∷ there.pieces;
    whole =
        ap (◌++◌ piece) (there.whole ∙ sym (rest_next i chars))
        ∙ take-append-drop limit (drop (i * limit) chars);
    count = ap suc there.count;
    fits = (
      (
        omega (arith, length-take limit (drop (i * limit) chars)),
        omega (arith, length-take limit (drop (i * limit) chars)),
      ),
      there.fits,
    );
    built = rw (slice_lem chars (i * limit) limit) (ap (◌∷◌ first) there.built);
  }
    where
      piece : List ℕ
      piece = take limit (drop (i * limit) chars)

      first : EncodedPdu
      first = build piece (record { ref = 0x42; total = n_parts % 256; part_num = (i + 1) % 256 })

  -- `n` rounds are left for the characters from part `i` on: not too few, and none for nothing.
  parts_from-Splits :
      (n i : ℕ) (chars : List ℕ)
      → 0 < limit
      → length (drop (i * limit) chars) ≤ n * limit
      → n * limit < length (drop (i * limit) chars) + limit
      → Splits build limit n_parts i n
          (drop (i * limit) chars)
          (parts_from build limit chars n_parts i n)
  unfolding parts_from numbered
  parts_from-Splits zero i chars pos_limit enough few = record {
    pieces = [];
    whole = nil_lem (drop (i * limit) chars) (omega arith);
    count = refl;
    fits = tt;
    built = refl;
  }
  parts_from-Splits (suc n) i chars pos_limit enough few =
      let len = ap length (rest_next i chars) in
      let left = length-drop limit (drop (i * limit) chars) in
      cons-Splits n i chars pos_limit (omega arith) (
        parts_from-Splits n (i + 1) chars pos_limit (omega (arith, len, left))
          (omega (arith, len, left)))

-- The number of parts: as many as the limit makes necessary.
abbrev pub part_count : ℕ → ℕ → ℕ
part_count limit n = (n + limit - 1) / limit

part_count_bounds :
    (limit n : ℕ)
    → 0 < limit
    → (n ≤ part_count limit n * limit) × (part_count limit n * limit < n + limit)
part_count_bounds limit n h =
    let whole = div-add-mod (n + limit - 1) limit in
    let part = mod-lt (n + limit - 1) h in (omega (arith, whole, part), omega (arith, whole, part))

encode_parts-Splits :
    (build : List ℕ → Part → EncodedPdu) (max limit : ℕ) (chars : List ℕ)
    → 0 < limit
    → max < length chars
    → Splits build limit
        (part_count limit (length chars))
        0
        (part_count limit (length chars))
        chars
        (encode_parts build max limit chars)
unfolding encode_parts
encode_parts-Splits build max limit chars pos_limit long =
    let n : ℕ = part_count limit (length chars) in
    let many : leb (length chars) max ≡ false = ground arith in
    let start : 0 * limit ≡ 0 = omega arith in
    rw many (
      rw start at (
        parts_from-Splits build limit n n 0 chars pos_limit
          (rw start (part_count_bounds limit (length chars) pos_limit).0)
          (rw start (part_count_bounds limit (length chars) pos_limit).1)))

-- A GSM 7-bit text of more than 160 codes is sent in parts. The codes of the parts, one behind
-- another, are those of the text; no part is empty or longer than 153 codes; there are as few parts
-- as that allows; and the parts are numbered from 1 in order, each with the number of parts. Up to
-- 39015 codes, and no further, the number of parts fits the byte that holds it.
pub encode_gsm7_pdus-Splits :
    (to body : List ℕ)
    → 160 < length (encode_gsm7_text body)
    → Splits
        (build_gsm7_pdu to)
        153
        (part_count 153 (length (encode_gsm7_text body)))
        0
        (part_count 153 (length (encode_gsm7_text body)))
        (encode_gsm7_text body)
        (encode_gsm7_pdus to body)
      × (leb (part_count 153 (length (encode_gsm7_text body))) 255
          ≡ leb (length (encode_gsm7_text body)) 39015)
unfolding encode_gsm7_pdus
encode_gsm7_pdus-Splits to body long = (
  encode_parts-Splits (build_gsm7_pdu to) 160 153 (encode_gsm7_text body) (omega arith) long,
  ground arith,
)

-- A UCS2 text of more than 70 runes is sent in parts in the same way, with up to 67 runes each; up to
-- 17085 runes, and no further, the number of parts fits its byte.
pub encode_ucs2_pdus-Splits :
    (to body : List ℕ)
    → 70 < length body
    → Splits
        (build_ucs2_pdu to)
        67
        (part_count 67 (length body))
        0
        (part_count 67 (length body))
        body
        (encode_ucs2_pdus to body)
      × (leb (part_count 67 (length body)) 255 ≡ leb (length body) 17085)
unfolding encode_ucs2_pdus
encode_ucs2_pdus-Splits to body long =
    (encode_parts-Splits (build_ucs2_pdu to) 70 67 body (omega arith) long, ground arith)
