-- ===== src/Serializer/Responses.antt =====
-- The commands of internal/at/serializer.go that read something from the lines of a response, the
-- parsers of unsolicited lines there, and ParseCSQ of internal/at/csq.go. What Execute returns is an argument.
use sms_gate.Prelude.{
  ℕ, ◌-◌, ◌*◌, ◌&&◌, Option, none, some, List, [], ◌∷◌, ◌++◌, ltb, leb, ◌==◌, length, if◌then◌else◌,
}
use sms_gate.Prelude.Int.{ℤ, pos, negsuc}
use sms_gate.Prelude.Text.{codes}
use sms_gate.Prelude.Strings.{trim_space, has_prefix, trim_prefix, split, without, atoi, scan_int}
use sms_gate.Serializer.{Line, malformed, unreadable, Result, ok, err}

-- The error of Execute goes to the caller.
abbrev pub and_then : {A B : Type 0} → Result A → (A → Result B) → Result B
and_then (ok a) f = f a
and_then (err e) f = err e

-- A number that strconv or Sscanf could not read is an error of theirs.
abbrev pub parsed : Option ℤ → Result ℤ
parsed none = err unreadable
parsed (some n) = ok n

-- The first line with this prefix.
unfoldable pub find_line : Line → List Line → Option Line
find_line prefix [] = none
find_line prefix (l ∷ lines) = if has_prefix prefix l then some l else find_line prefix lines

-- ReadCapabilities
abbrev pub capabilities_line : Option Line → Result Line
capabilities_line none = err malformed
capabilities_line (some l) = ok (trim_space (trim_prefix (codes "+GCAP:") l))

unfoldable pub read_capabilities : Result (List Line) → Result Line
unfolding find_line
read_capabilities response =
    and_then response (λ lines. capabilities_line (find_line (codes "+GCAP:") lines))

-- strings.ToUpper
abbrev pub upper : ℕ → ℕ
upper c = if leb b'a' c && leb c b'z' then c - 32 else c

unfoldable pub to_upper : Line → Line
to_upper [] = []
to_upper (c ∷ s) = upper c ∷ to_upper s

-- ReadICCID: the responses to the three commands, in their order.
unfoldable pub iccid_text : Line → Line
iccid_text l =
    trim_space (trim_prefix (codes "+ICCID:") (trim_prefix (codes "+CCID:") (trim_space l)))

unfoldable pub iccid_among : List Line → Option Line
unfolding iccid_text to_upper
iccid_among [] = none
iccid_among (l ∷ lines) =
    if leb 19 (length (iccid_text l))
    then some (to_upper (without b' ' (iccid_text l)))
    else iccid_among lines

abbrev pub or_iccid : Option Line → Result Line → Result Line
or_iccid none later = later
or_iccid (some l) later = ok l

unfoldable pub read_iccid : List (Result (List Line)) → Result Line
unfolding iccid_among
read_iccid [] = err malformed
read_iccid (err e ∷ responses) = read_iccid responses
read_iccid (ok lines ∷ responses) = or_iccid (iccid_among lines) (read_iccid responses)

-- ReadIMSI
unfoldable pub imsi_among : List Line → Result Line
imsi_among [] = err malformed
imsi_among (l ∷ lines) = if length (trim_space l) == 15 then ok (trim_space l) else imsi_among lines

unfoldable pub read_imsi : Result (List Line) → Result Line
unfolding imsi_among
read_imsi response = and_then response imsi_among

-- ReadOperator: what stands between the first two quotes.
abbrev pub or_operator : List Line → Line → Line
or_operator [] later = later
or_operator (p ∷ []) later = later
or_operator (p ∷ name ∷ parts) later = name

unfoldable pub operator_among : List Line → Line
operator_among [] = codes "unknown"
operator_among (l ∷ lines) =
    let later = operator_among lines in
    if has_prefix (codes "+COPS:") l then or_operator (split b'"' l) later else later

unfoldable pub read_operator : Result (List Line) → Result Line
unfolding operator_among
read_operator response = and_then response (λ lines. ok (operator_among lines))

-- ParseCSQ: "%d,%d", both numbers needed, since Sscanf reports an error when the second is missing.
abbrev pub dbm : ℕ → Result ℤ
dbm csq =
    if csq == 99
    then ok (negsuc 112)
    else (if leb csq 31 then ok (negsuc (112 - csq * 2)) else err unreadable)

abbrev pub csq_range : ℤ → Result ℤ
csq_range (pos csq) = dbm csq
csq_range (negsuc n) = err unreadable

abbrev pub second_number : ℤ → Option (ℤ × List ℕ) → Result ℤ
second_number csq none = err unreadable
second_number csq (some (ber, rest)) = csq_range csq

abbrev pub after_comma : ℤ → Line → Result ℤ
after_comma csq [] = err unreadable
after_comma csq (c ∷ rest) = if c == b',' then second_number csq (scan_int rest) else err unreadable

abbrev pub csq_numbers : Option (ℤ × List ℕ) → Result ℤ
csq_numbers none = err unreadable
csq_numbers (some (csq, rest)) = after_comma csq rest

unfoldable pub parse_csq : Line → Result ℤ
parse_csq line =
    if has_prefix (codes "+CSQ:") (trim_space line)
    then csq_numbers (scan_int (trim_space (trim_prefix (codes "+CSQ:") (trim_space line))))
    else err unreadable

abbrev pub quality_line : Option Line → Result ℤ
quality_line none = err malformed
quality_line (some l) = parse_csq l

-- SignalQuality
unfoldable pub signal_quality : Result (List Line) → Result ℤ
unfolding find_line
signal_quality response =
    and_then response (λ lines. quality_line (find_line (codes "+CSQ:") lines))

-- RegistrationStatus: the second part, else the whole.
abbrev pub stat_of : Line → List Line → Result ℤ
stat_of l [] = parsed (atoi (trim_space (trim_prefix (codes "+CREG:") l)))
stat_of l (n ∷ []) = parsed (atoi (trim_space (trim_prefix (codes "+CREG:") l)))
stat_of l (n ∷ stat ∷ parts) = parsed (atoi (trim_space stat))

abbrev pub stat_line : Option Line → Result ℤ
stat_line none = err malformed
stat_line (some l) = stat_of l (split b',' (trim_prefix (codes "+CREG:") l))

unfoldable pub registration_status : Result (List Line) → Result ℤ
unfolding find_line
registration_status response =
    and_then response (λ lines. stat_line (find_line (codes "+CREG:") lines))

-- StorageStatus: used and total, of the first line with three parts.
abbrev pub used_total : Option ℤ → Option ℤ → Result (ℤ × ℤ)
used_total none total = err unreadable
used_total (some used) none = err unreadable
used_total (some used) (some total) = ok (used, total)

abbrev pub storage_parts : List Line → Result (ℤ × ℤ) → Result (ℤ × ℤ)
storage_parts (name ∷ used ∷ total ∷ parts) later =
    used_total (atoi (trim_space used)) (atoi (trim_space total))
storage_parts [] later = later
storage_parts (name ∷ []) later = later
storage_parts (name ∷ used ∷ []) later = later

unfoldable pub storage_among : List Line → Result (ℤ × ℤ)
storage_among [] = err malformed
storage_among (l ∷ lines) =
    let later = storage_among lines in
    if has_prefix (codes "+CPMS:") l
    then storage_parts (split b',' (trim_prefix (codes "+CPMS:") l)) later
    else later

unfoldable pub storage_status : Result (List Line) → Result (ℤ × ℤ)
unfolding storage_among
storage_status response = and_then response storage_among

-- ReadSMS: all lines after the header, as one text.
unfoldable pub joined : List Line → Line
joined [] = []
joined (part ∷ parts) = trim_space part ++ joined parts

unfoldable pub pdu_of : List Line → Result Line
unfolding joined
pdu_of parts = if length (joined parts) == 0 then err malformed else ok (joined parts)

unfoldable pub pdu_among : List Line → Result Line
unfolding pdu_of
pdu_among [] = err malformed
pdu_among (l ∷ lines) = if has_prefix (codes "+CMGR:") l then pdu_of lines else pdu_among lines

unfoldable pub read_sms : Result (List Line) → Result Line
unfolding pdu_among
read_sms response = and_then response pdu_among

-- ParseCMTI: an index from 0 to 999.
abbrev pub cmti_index : Option (ℤ × List ℕ) → Result ℕ
cmti_index none = err unreadable
cmti_index (some (negsuc n, rest)) = err malformed
cmti_index (some (pos n, rest)) = if ltb 999 n then err malformed else ok n

abbrev pub cmti_parts : List Line → Result ℕ
cmti_parts [] = err malformed
cmti_parts (store ∷ []) = err malformed
cmti_parts (store ∷ index ∷ parts) = cmti_index (scan_int (trim_space index))

unfoldable pub parse_cmti : Line → Result ℕ
parse_cmti urc = cmti_parts (split b',' urc)

-- ParseCREG: 0 when the text is no number.
abbrev pub stat_text : List Line → Line
stat_text [] = []
stat_text (stat ∷ []) = trim_space stat
stat_text (n ∷ stat ∷ parts) = trim_space stat

abbrev pub or_zero : Option ℤ → ℤ
or_zero none = pos 0
or_zero (some n) = n

unfoldable pub parse_creg : Line → ℤ
parse_creg urc =
    or_zero (atoi (stat_text (split b',' (trim_space (trim_prefix (codes "+CREG:") urc)))))
