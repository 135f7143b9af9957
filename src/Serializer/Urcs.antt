-- ===== src/Serializer/Urcs.antt =====
-- What the worker finds in URCCH.
use sms_gate.Prelude.{
  All, ◌≤◌, ◌≡◌, refl, sym, ap, ◌∙◌, inl, inr, true, false, List, [], ◌∷◌, ◌++◌, ltb, ◌==◌, length,
  drop, length-append, length-drop, arith, Bool-cases,
}
use sms_gate.Prelude.Text.{codes}
use sms_gate.Prelude.Strings.{has_prefix}
use sms_gate.Serializer.{
  Line, any_prefix, is_urc, channel_size, offer, Serializer, trim_cr, push_urc, route, read_line,
}

-- At most 64 lines, all of them unsolicited by their prefix.
pub record IsUrcQueue (urcs : List Line) : Type 0 where
  pub few : length urcs ≤ channel_size
  pub unsolicited : All (λ l. is_urc l ≡ true) urcs

All-append-one :
    (urcs : List Line) (l : Line)
    → All (λ x. is_urc x ≡ true) urcs
    → is_urc l ≡ true
    → All (λ x. is_urc x ≡ true) (urcs ++ l ∷ [])
All-append-one [] l h e = (e, tt)
All-append-one (x ∷ urcs) l (hx, h) e = (hx, All-append-one urcs l h e)

All-drop_one :
    (urcs : List Line) → All (λ x. is_urc x ≡ true) urcs → All (λ x. is_urc x ≡ true) (drop 1 urcs)
All-drop_one [] h = tt
All-drop_one (x ∷ urcs) (hx, h) = h

offer-IsUrcQueue :
    (l : Line) (urcs : List Line) → is_urc l ≡ true → IsUrcQueue urcs → IsUrcQueue (offer l urcs)
unfolding offer
offer-IsUrcQueue l urcs e h = elim (Bool-cases (ltb (length urcs) channel_size)) [
  | inl room ↦ rw room (record {
    few = ground (arith, length-append urcs (l ∷ []));
    unsolicited = All-append-one urcs l h.unsolicited e;
  })
  | inr full ↦ rw full h
]

push_urc-IsUrcQueue :
    (l : Line) (urcs : List Line) → is_urc l ≡ true → IsUrcQueue urcs → IsUrcQueue (push_urc l urcs)
unfolding push_urc
push_urc-IsUrcQueue l urcs e h = elim (Bool-cases (ltb (length urcs) channel_size)) [
  | inl room ↦ rw room (record {
    few = ground (arith, length-append urcs (l ∷ []));
    unsolicited = All-append-one urcs l h.unsolicited e;
  })
  | inr full ↦ rw full (
      offer-IsUrcQueue l (drop 1 urcs) e (record {
        few = let old = h.few in omega (arith, length-drop 1 urcs);
        unsolicited = All-drop_one urcs h.unsolicited;
      }))
]

route-IsUrcQueue : (l : Line) (s : Serializer) → IsUrcQueue s.urcs → IsUrcQueue (route l s).urcs
unfolding route
route-IsUrcQueue l s h = elim (Bool-cases (length l == 0)) [
  | inl empty ↦ simp empty h
  | inr full ↦ elim (Bool-cases (is_urc l)) [
    | inl urc ↦ simp (full, urc) (push_urc-IsUrcQueue l s.urcs urc h)
    | inr plain ↦ simp (full, plain) h
  ]
]

-- The lines that a port delivers, one after another.
unfoldable pub read_lines : List Line → Serializer → Serializer
read_lines [] s = s
read_lines (text ∷ lines) s = read_lines lines (read_line text s)

urcs-read_lines :
    (lines : List Line) (s : Serializer) → IsUrcQueue s.urcs → IsUrcQueue (read_lines lines s).urcs
unfolding read_lines read_line
urcs-read_lines [] s h = h
urcs-read_lines (text ∷ lines) s h =
    urcs-read_lines lines (read_line text s) (route-IsUrcQueue (trim_cr text) s h)

-- A registration report is not unsolicited by its prefix.
creg-not_urc : (rest : Line) → is_urc (codes "+CREG:" ++ rest) ≡ false
unfolding is_urc any_prefix has_prefix
creg-not_urc rest = refl

has_prefix-append :
    (prefix s : Line) → has_prefix prefix s ≡ true → s ≡ prefix ++ drop (length prefix) s
unfolding has_prefix
has_prefix-append [] s e = refl
has_prefix-append (p ∷ prefix) [] e = absurd (ground arith)
has_prefix-append (p ∷ prefix) (c ∷ s) e =
    let same : p ≡ c = ground arith in
    let rest : has_prefix prefix s ≡ true = ground arith in
    rw (sym same) (ap (λ x. p ∷ x) (has_prefix-append prefix s rest))

is_urc→not_creg : (l : Line) → is_urc l ≡ true → has_prefix (codes "+CREG:") l ≡ false
is_urc→not_creg l e = elim (Bool-cases (has_prefix (codes "+CREG:") l)) [
  | inl report ↦
      let whole = has_prefix-append (codes "+CREG:") l report in
      let no_urc : is_urc l ≡ false = ap is_urc whole ∙ creg-not_urc (drop 6 l) in
      absurd (ground arith)
  | inr other ↦ other
]

All-not_creg :
    (urcs : List Line)
    → All (λ l. is_urc l ≡ true) urcs
    → All (λ l. has_prefix (codes "+CREG:") l ≡ false) urcs
All-not_creg [] h = tt
All-not_creg (l ∷ urcs) (e, h) = (is_urc→not_creg l e, All-not_creg urcs h)

-- Whatever lines a port delivers, URCCH never holds more than 64, and all of them are unsolicited by their
-- prefix; no registration report (+CREG:) is ever among them.
pub read_lines-IsUrcQueue :
    (lines : List Line) (s : Serializer)
    → IsUrcQueue s.urcs
    → IsUrcQueue (read_lines lines s).urcs
      × All (λ l. has_prefix (codes "+CREG:") l ≡ false) (read_lines lines s).urcs
read_lines-IsUrcQueue lines s h =
    let h' = urcs-read_lines lines s h in
    (h', All-not_creg (read_lines lines s).urcs h'.unsolicited)
