-- ===== src/Pdu/Deliver/RoundTrip.antt =====
-- Whole messages, as a service centre writes them.
use Prim.Native.Nat.{bit_and}
use mathlib.Core.List.{append-nil}
use sms_gate.Pdu.Septets.{shr8}
use sms_gate.Pdu.Septets.Indexed.{try_unpack_gsm7_lem}
use sms_gate.Pdu.Address.Indexed.{smsc_of, decode_smsc-append}
use sms_gate.Prelude.{
  ◌⊎◌, ◌≤◌, ap, get_or, take, drop, length-append, ℕ, ◌+◌, ◌-◌, ◌*◌, ◌/◌, ◌<◌, ◌≡◌, refl, ◌∙◌, inl,
  inr, true, false, List, [], ◌∷◌, ◌++◌, ◌&&◌, Bool-cases, ltb, leb, ◌==◌, length, take_all, All,
  arith, if◌then◌else◌,
}
use sms_gate.Pdu.Septets.{pack_gsm7, unpack_gsm7}
use sms_gate.Pdu.Alphabet.{is_gsm7, encode_gsm7_text, decode_gsm7_text}
use sms_gate.Pdu.Alphabet.RoundTrip.{NoEscape, decode_gsm7_text-encode_gsm7_text}
use sms_gate.Pdu.Address.{
  Address, pad, encode_digits, encode_number, encode_bcd_address, decode_bcd_address, decode_scts,
  dcs_encoding,
}
use sms_gate.Pdu.Address.RoundTrip.{IsDigit, decoded-encode_bcd_address}
use sms_gate.Pdu.Address.SemiOctets.{Fields, scts}
use sms_gate.Pdu.Ucs2.{encode_ucs2, decode_ucs2}
use sms_gate.Pdu.Ucs2.RoundTrip.{IsRune, decode_ucs2-encode_ucs2}
use sms_gate.Pdu.Deliver.{
  decode_from_oa, DecodedSms, decoded, between, decode_body, decode_raw, at, stop_if, value,
  without_header,
}
use sms_gate.Pdu.Deliver.Slices.{
  get_or-front, take-append, decode_from_oa-snoc, decode_from_oa-append, decode_from_pid-append,
}

-- What an SMS-DELIVER has beside its sender and its text: the octets of the service centre, its type
-- first, the first octet of the TPDU, the PID and the time stamp.
pub record Frame : Type 0 where
  pub centre : List ℕ
  pub first : ℕ
  pub pid : ℕ
  pub stamp : Fields

-- The first octet is that of an SMS-DELIVER without a user data header; its other bits are free.
pub record IsDeliver (f : Frame) : Type 0 where
  pub mti : bit_and f.first 0x03 ≡ 0
  pub no_header : bit_and (shr8 f.first 6) 0x01 ≡ 0

-- An SMS-DELIVER as 3GPP TS 23.040 lays it out, behind the service centre.
abbrev pub deliver : Frame → Address → ℕ → ℕ → List ℕ → List ℕ
deliver f oa dcs udl ud =
    (length f.centre ∷ f.centre)
    ++ f.first
      ∷ oa.num_digits
      ∷ oa.addr_type
      ∷ (oa.octets ++ f.pid ∷ dcs ∷ (scts f.stamp ++ udl ∷ ud))

-- The message that it stands for.
abbrev pub message : List ℕ → Frame → List ℕ → List ℕ → DecodedSms
message pdu_hash f sender body = record {
  smsc = smsc_of f.centre;
  sender = sender;
  body = body;
  timestamp = decode_scts (scts f.stamp);
  pdu_hash = pdu_hash;
}

-- Two digits in an octet.
length-encode_digits :
    (digits : List ℕ) → (length digits + 1) / 2 ≡ length (encode_digits (pad digits))
unfolding encode_digits
length-encode_digits [] = refl
length-encode_digits (a ∷ []) = refl
length-encode_digits (a ∷ b ∷ digits) =
    let e : pad (a ∷ b ∷ digits) ≡ a ∷ b ∷ pad digits = ground arith in
    rw e (omega (arith, length-encode_digits digits))

pub length-encode_bcd_address :
    (sender : List ℕ)
    → ((encode_bcd_address sender).num_digits + 1) / 2 ≡ length (encode_bcd_address sender).octets
unfolding encode_bcd_address encode_number
length-encode_bcd_address [] = length-encode_digits []
length-encode_bcd_address (d ∷ digits) = elim (Bool-cases (d == b'+')) [
  | inl plus ↦ rw plus (length-encode_digits digits)
  | inr digit ↦ rw digit (length-encode_digits (d ∷ digits))
]

-- The service centre, and the type of an SMS-DELIVER.
decode_raw-front :
    (pdu_hash : List ℕ) (f : Frame) (rest : List ℕ)
    → bit_and f.first 0x03 ≡ 0
    → 0 < length rest
    → decode_raw pdu_hash ((length f.centre ∷ f.centre) ++ f.first ∷ rest)
      ≡ decode_from_oa
          ((length f.centre ∷ f.centre) ++ f.first ∷ rest)
          (1 + length f.centre + 1)
          (bit_and (shr8 f.first 6) 0x01 == 1)
          (λ sender timestamp body. record {
            smsc = smsc_of f.centre;
            sender = sender;
            body = body;
            timestamp = timestamp;
            pdu_hash = pdu_hash;
          })
unfolding decode_raw at stop_if value
decode_raw-front pdu_hash f rest mti h =
    let front : List ℕ = length f.centre ∷ f.centre in
    let pos = 1 + length f.centre in
    let raw : List ℕ = front ++ f.first ∷ rest in
    let len = length-append f.centre (f.first ∷ rest) in
    let there : leb (length raw) pos ≡ false = ground (arith, len) in
    let inside : ltb pos (length raw) ≡ true = ground (arith, len) in
    let size : length front ≡ pos = omega arith in
    let first : get_or raw pos 0 ≡ f.first = rw (← size) (get_or-front front f.first rest) in
    rw (decode_smsc-append f.centre (f.first ∷ rest), there, inside, first, mti) refl

pub decode_raw-deliver :
    (pdu_hash : List ℕ) (f : Frame) (oa : Address) (dcs udl : ℕ) (ud : List ℕ)
    → bit_and f.first 0x03 ≡ 0
    → (oa.num_digits + 1) / 2 ≡ length oa.octets
    → decode_raw pdu_hash (deliver f oa dcs udl ud)
      ≡ without_header (dcs_encoding dcs) (bit_and (shr8 f.first 6) 0x01 == 1) ud udl (λ ud' udl'.
        decode_body (dcs_encoding dcs) ud' udl' (λ body.
          decoded
            (message pdu_hash f (decode_bcd_address oa.octets oa.num_digits oa.addr_type) body)))
decode_raw-deliver pdu_hash f oa dcs udl ud mti h =
    let front : List ℕ = (length f.centre ∷ f.centre) ++ f.first ∷ [] in
    decode_raw-front pdu_hash f _ mti (omega arith)
    ∙ decode_from_oa-snoc (length f.centre ∷ f.centre) f.first _ _ _ _ (omega arith)
    ∙ decode_from_oa-append front oa.num_digits oa.addr_type oa.octets _ _ _ h
    ∙ decode_from_pid-append (front ++ oa.num_digits ∷ oa.addr_type ∷ oa.octets) f.pid dcs _ _ _ _ _
        _ _ udl ud _ _

decode_raw-plain :
    (pdu_hash : List ℕ) (f : Frame) (oa : Address) (dcs udl : ℕ) (ud : List ℕ)
    → IsDeliver f
    → (oa.num_digits + 1) / 2 ≡ length oa.octets
    → decode_raw pdu_hash (deliver f oa dcs udl ud)
      ≡ decode_body (dcs_encoding dcs) ud udl (λ body.
        decoded (message pdu_hash f (decode_bcd_address oa.octets oa.num_digits oa.addr_type) body))
unfolding without_header
decode_raw-plain pdu_hash f oa dcs udl ud d h =
    decode_raw-deliver pdu_hash f oa dcs udl ud d.mti h ∙ rw d.no_header refl

decode_body-gsm7 :
    (pdu_hash sent sender : List ℕ) (f : Frame) (codes text : List ℕ)
    → sent ≡ sender
    → decode_gsm7_text (unpack_gsm7 (pack_gsm7 codes) (length codes)) ≡ text
    → decode_body
        (dcs_encoding 0x00)
        (pack_gsm7 codes)
        (length codes)
        (λ body. decoded (message pdu_hash f sent body))
      ≡ decoded (message pdu_hash f sender text)
unfolding dcs_encoding decode_body value
decode_body-gsm7 pdu_hash sent sender f codes text e unpacked =
    rw (try_unpack_gsm7_lem (pack_gsm7 codes) (length codes), e, unpacked)

-- An SMS-DELIVER without a user data header, in the default alphabet (DCS 0), with any service centre,
-- PID and time stamp, from a number of decimal digits with or without a plus, is decoded to the number
-- and the text that it was made from, if the text is one that `IsGSM7` accepts and holds no escape
-- character; to the service centre that decodeBCDAddress reads and the time that decodeSCTS reads.
pub decode_raw-deliver_gsm7 :
    (pdu_hash sender text : List ℕ) (f : Frame)
    → IsDeliver f
    → All IsDigit sender
    → is_gsm7 text ≡ true
    → NoEscape text
    → let codes = encode_gsm7_text text in
      let user_data = pack_gsm7 codes in
      (decode_raw pdu_hash (deliver f (encode_bcd_address sender) 0x00 (length codes) user_data)
        ≡ decoded (message pdu_hash f sender text))
      × (decode_raw pdu_hash
            (deliver f (encode_bcd_address (b'+' ∷ sender)) 0x00 (length codes) user_data)
          ≡ decoded (message pdu_hash f (b'+' ∷ sender) text))
decode_raw-deliver_gsm7 pdu_hash sender text f d digits known plain =
    let from = decoded-encode_bcd_address sender digits in
    let body = (decode_gsm7_text-encode_gsm7_text text known plain).0 in
    (
      decode_raw-plain pdu_hash f (encode_bcd_address sender) 0x00 _ _ d
            (length-encode_bcd_address sender)
          ∙ decode_body-gsm7 pdu_hash _ sender f _ text from.0 body,
      decode_raw-plain pdu_hash f (encode_bcd_address (b'+' ∷ sender)) 0x00 _ _ d
            (length-encode_bcd_address (b'+' ∷ sender))
          ∙ decode_body-gsm7 pdu_hash _ (b'+' ∷ sender) f _ text from.1 body,
    )

-- The length of the user data as `DecodePDU` takes it: the number of 16-bit units, whatever follows
-- them; or more than that, as the number of octets is, and nothing follows.
abbrev pub Counts : List ℕ → List ℕ → ℕ → Type 0
Counts octets more udl = (length octets ≡ udl * 2) ⊎ ((length octets ≤ udl * 2) × (more ≡ []))

-- The octets that are taken are those of the text.
cut_octets :
    (octets more : List ℕ) (udl : ℕ)
    → Counts octets more udl
    → let n =
        (if ltb (length (octets ++ more)) (udl * 2) then length (octets ++ more) else udl * 2) in
      ((leb 0 n && leb n (length (octets ++ more))) ≡ true)
      × (take (n - 0) (drop 0 (octets ++ more)) ≡ octets)
cut_octets octets more udl (inl units) =
    let len = length-append octets more in
    let cut : (if ltb (length (octets ++ more)) (udl * 2) then length (octets ++ more) else udl * 2)
        ≡ length octets =
      ground (arith, len) in
    let all : length octets - 0 ≡ length octets = omega arith in
    rw cut (ground (arith, len), rw all (take-append octets more))
cut_octets octets more udl (inr (enough, nothing)) =
    let whole : octets ++ more ≡ octets = ap (◌++◌ octets) nothing ∙ append-nil octets in
    let cut : (if ltb (length octets) (udl * 2) then length octets else udl * 2) ≡ length octets =
      ground arith in
    let all : length octets - 0 ≡ length octets = omega arith in
    rw (whole, cut) (ground arith, rw all (take_all (length octets) octets (omega arith)))

decode_body-ucs2 :
    (pdu_hash sent sender : List ℕ) (f : Frame) (octets more text : List ℕ) (udl : ℕ)
    → Counts octets more udl
    → sent ≡ sender
    → decode_ucs2 octets ≡ text
    → decode_body
        (dcs_encoding 0x08)
        (octets ++ more)
        udl
        (λ body. decoded (message pdu_hash f sent body))
      ≡ decoded (message pdu_hash f sender text)
unfolding dcs_encoding decode_body between
decode_body-ucs2 pdu_hash sent sender f octets more text udl counts e body =
    let (inside, taken) = cut_octets octets more udl counts in rw (inside, taken, e, body)

-- An SMS-DELIVER without a user data header, in UCS2 (DCS 8), with any service centre, PID and time stamp,
-- from a number of decimal digits with or without a plus, is decoded to the number and the text of runes
-- that it was made from, if its length of the user data is the number of 16-bit units, whatever octets
-- follow these; or if it is more than that, as the number of octets is, and no octets follow.
pub decode_raw-deliver_ucs2 :
    (pdu_hash sender text more : List ℕ) (udl : ℕ) (f : Frame)
    → IsDeliver f
    → All IsDigit sender
    → All IsRune text
    → Counts (encode_ucs2 text) more udl
    → let user_data = encode_ucs2 text ++ more in
      (decode_raw pdu_hash (deliver f (encode_bcd_address sender) 0x08 udl user_data)
        ≡ decoded (message pdu_hash f sender text))
      × (decode_raw pdu_hash (deliver f (encode_bcd_address (b'+' ∷ sender)) 0x08 udl user_data)
          ≡ decoded (message pdu_hash f (b'+' ∷ sender) text))
decode_raw-deliver_ucs2 pdu_hash sender text more udl f d digits runes counts =
    let from = decoded-encode_bcd_address sender digits in
    let body = decode_ucs2-encode_ucs2 text runes in
    (
      decode_raw-plain pdu_hash f (encode_bcd_address sender) 0x08 udl _ d
            (length-encode_bcd_address sender)
          ∙ decode_body-ucs2 pdu_hash _ sender f _ more text udl counts from.0 body,
      decode_raw-plain pdu_hash f (encode_bcd_address (b'+' ∷ sender)) 0x08 udl _ d
            (length-encode_bcd_address (b'+' ∷ sender))
          ∙ decode_body-ucs2 pdu_hash _ (b'+' ∷ sender) f _ more text udl counts from.1 body,
    )
