-- ===== src/Pdu/Deliver/Slices.antt =====
-- What `DecodePDU` reads of a PDU in two parts, from the second part.
use mathlib.Core.List.{append_assoc}
use sms_gate.Pdu.Address.Indexed.{try_decode_bcd_address_lem}
use sms_gate.Prelude.{
  Bool, sym, ℕ, suc, ◌+◌, ◌-◌, ◌/◌, ◌≡◌, refl, ap, true, false, List, [], ◌∷◌, ◌++◌, ltb, leb,
  length, length-append, take, drop, get_or, arith,
}
use sms_gate.Pdu.Address.{Stamp, decode_bcd_address, decode_scts, dcs_encoding}
use sms_gate.Pdu.Deliver.{
  DecodedSms, decoded, at, between, from, stop_if, value, decode_body, without_header,
  decode_from_pid, decode_from_oa,
}

pub get_or-append : (xs ys : List ℕ) (i : ℕ) → get_or (xs ++ ys) (length xs + i) 0 ≡ get_or ys i 0
get_or-append [] ys i = let e : 0 + i ≡ i = omega arith in rw e
get_or-append (x ∷ xs) ys i =
    let e : suc (length xs) + i ≡ suc (length xs + i) = omega arith in rw e (get_or-append xs ys i)

pub get_or-front : (xs : List ℕ) (y : ℕ) (ys : List ℕ) → get_or (xs ++ y ∷ ys) (length xs) 0 ≡ y
get_or-front [] y ys = refl
get_or-front (x ∷ xs) y ys = get_or-front xs y ys

drop-append : (xs ys : List ℕ) (i : ℕ) → drop (length xs + i) (xs ++ ys) ≡ drop i ys
drop-append [] ys i = let e : 0 + i ≡ i = omega arith in rw e
drop-append (x ∷ xs) ys i =
    let e : suc (length xs) + i ≡ suc (length xs + i) = omega arith in rw e (drop-append xs ys i)

pub take-append : (xs ys : List ℕ) → take (length xs) (xs ++ ys) ≡ xs
take-append [] ys = refl
take-append (x ∷ xs) ys = ap (◌∷◌ x) (take-append xs ys)

-- PID, DCS, time stamp, length and user data behind `front`.
pub decode_from_pid-append :
    (front : List ℕ) (pid dcs s1 s2 s3 s4 s5 s6 s7 udl : ℕ) (ud : List ℕ) (udhi : Bool)
    (done : Stamp → List ℕ → DecodedSms)
    → let ts = s1 ∷ s2 ∷ s3 ∷ s4 ∷ s5 ∷ s6 ∷ s7 ∷ [] in
      decode_from_pid (front ++ pid ∷ dcs ∷ (ts ++ udl ∷ ud)) (length front) udhi done
      ≡ without_header (dcs_encoding dcs) udhi ud udl (λ ud' udl'.
        decode_body (dcs_encoding dcs) ud' udl' (λ body. decoded (done (decode_scts ts) body)))
unfolding decode_from_pid at between from stop_if
decode_from_pid-append front pid dcs s1 s2 s3 s4 s5 s6 s7 udl ud udhi done =
    let tl : List ℕ = pid ∷ dcs ∷ s1 ∷ s2 ∷ s3 ∷ s4 ∷ s5 ∷ s6 ∷ s7 ∷ udl ∷ ud in
    let n = length front in
    let len = length-append front tl in
    let pid_there : leb (length (front ++ tl)) n ≡ false = ground (arith, len) in
    let dcs_there : leb (length (front ++ tl)) (n + 1) ≡ false = ground (arith, len) in
    let dcs_in : ltb (n + 1) (length (front ++ tl)) ≡ true = ground (arith, len) in
    let ts_there : ltb (length (front ++ tl)) (n + 2 + 7) ≡ false = ground (arith, len) in
    let ts_in : leb (n + 2 + 7) (length (front ++ tl)) ≡ true = ground (arith, len) in
    let ordered : leb (n + 2) (n + 2 + 7) ≡ true = ground arith in
    let seven : n + 2 + 7 - (n + 2) ≡ 7 = omega arith in
    let udl_there : leb (length (front ++ tl)) (n + 9) ≡ false = ground (arith, len) in
    let udl_in : ltb (n + 9) (length (front ++ tl)) ≡ true = ground (arith, len) in
    let ud_in : leb (n + 10) (length (front ++ tl)) ≡ true = ground (arith, len) in
    rw (
      pid_there,
      dcs_there,
      dcs_in,
      ts_there,
      ts_in,
      ordered,
      seven,
      udl_there,
      udl_in,
      ud_in,
      get_or-append front tl 1,
      get_or-append front tl 9,
      drop-append front tl 2,
      drop-append front tl 10,
    )

-- The first octet as a part of what is in front.
pub decode_from_oa-snoc :
    (front : List ℕ) (first : ℕ) (rest : List ℕ) (p : ℕ) (udhi : Bool)
    (done : List ℕ → Stamp → List ℕ → DecodedSms)
    → p ≡ length front + 1
    → decode_from_oa (front ++ first ∷ rest) p udhi done
      ≡ decode_from_oa ((front ++ first ∷ []) ++ rest) (length (front ++ first ∷ [])) udhi done
decode_from_oa-snoc front first rest p udhi done h =
    let end : length (front ++ first ∷ []) ≡ p =
      omega (arith, h, length-append front (first ∷ [])) in
    rw (append_assoc front (first ∷ []) rest, end) refl

-- The originating address behind `front`.
pub decode_from_oa-append :
    (front : List ℕ) (n type : ℕ) (oa rest : List ℕ) (udhi : Bool)
    (done : List ℕ → Stamp → List ℕ → DecodedSms)
    → (n + 1) / 2 ≡ length oa
    → decode_from_oa (front ++ n ∷ type ∷ (oa ++ rest)) (length front) udhi done
      ≡ decode_from_pid
          ((front ++ n ∷ type ∷ oa) ++ rest)
          (length (front ++ n ∷ type ∷ oa))
          udhi
          (done (decode_bcd_address oa n type))
unfolding decode_from_oa at between stop_if value
decode_from_oa-append front n type oa rest udhi done h =
    let tl : List ℕ = n ∷ type ∷ (oa ++ rest) in
    let f = length front in
    let len = length-append front tl in
    let len_oa = length-append oa rest in
    let there : ltb (length (front ++ tl)) (f + 2) ≡ false = ground (arith, len) in
    let n_in : ltb f (length (front ++ tl)) ≡ true = ground (arith, len) in
    let type_in : ltb (f + 1) (length (front ++ tl)) ≡ true = ground (arith, len) in
    let oa_there : ltb (length (front ++ tl)) (f + 2 + length oa) ≡ false =
      ground (arith, len, len_oa) in
    let ordered : leb (f + 2) (f + 2 + length oa) ≡ true = ground arith in
    let oa_in : leb (f + 2 + length oa) (length (front ++ tl)) ≡ true =
      ground (arith, len, len_oa) in
    let size : f + 2 + length oa - (f + 2) ≡ length oa = omega arith in
    let end : f + 2 + length oa ≡ length (front ++ n ∷ type ∷ oa) =
      omega (arith, length-append front (n ∷ type ∷ oa)) in
    let whole : front ++ tl ≡ (front ++ n ∷ type ∷ oa) ++ rest =
      sym (append_assoc front (n ∷ type ∷ oa) rest) in
    rw
      (
        there,
        n_in,
        get_or-front front n (type ∷ (oa ++ rest)),
        get_or-append front tl 1,
        h,
        type_in,
        oa_there,
        ordered,
        oa_in,
        size,
        drop-append front tl 2,
        take-append oa rest,
        try_decode_bcd_address_lem oa n type,
      )
      (rw (end, whole) refl)
