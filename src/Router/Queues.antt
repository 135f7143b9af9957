-- ===== src/Router/Queues.antt =====
-- What a channel holds after a number of tasks.
use Prim.Native.String.{String}
use text.Mathlib.Text.{◌==◌ as str_eq}
use text.Mathlib.TextEquality.{eq_iff}
use sms_gate.Prelude.{
  ℕ, suc, ◌≤◌, ◌≡◌, refl, ap, ◌∙◌, inl, inr, Bool, true, false, Option, none, some, List, [], ◌∷◌,
  ◌++◌, ltb, length, length-append, take, take_all, arith, Bool-cases, if◌then◌else◌,
}
use sms_gate.Prelude.Dict.{lookup, lookup-insert}
use sms_gate.Router.{
  DispatchError, modem_not_found, modem_busy, Task, Channel, Registry, Extracted, iccid_of,
  no_iccid, Router, dispatch_found, dispatch_to, answer, dispatch_extracted, dispatch, dispatch_all,
  extract_iccid,
}

-- The tasks of one SIM, in order.
abbrev pub is_for : String → Extracted → Bool
is_for iccid (iccid_of other) = str_eq other iccid
is_for iccid (no_iccid err) = false

unfoldable pub tasks_for : (String → String → Option String) → String → List Task → List Task
unfolding extract_iccid
tasks_for unmarshal iccid [] = []
tasks_for unmarshal iccid (task ∷ tasks) =
    let rest = tasks_for unmarshal iccid tasks in
    if is_for iccid (extract_iccid unmarshal task) then task ∷ rest else rest

-- A channel takes a task if it has room.
abbrev accept : Channel → Task → Channel
accept w task =
    if ltb (length w.tasks) w.capacity then record w { tasks = w.tasks ++ task ∷ [] } else w

abbrev accept_all : Channel → List Task → Channel
accept_all w [] = w
accept_all w (task ∷ tasks) = accept_all (accept w task) tasks

append-snoc : (xs ys : List Task) (x : Task) → (xs ++ x ∷ []) ++ ys ≡ xs ++ x ∷ ys
append-snoc [] ys x = refl
append-snoc (y ∷ xs) ys x = ap (◌∷◌ y) (append-snoc xs ys x)

append_nil : (xs : List Task) → xs ++ [] ≡ xs
append_nil [] = refl
append_nil (x ∷ xs) = ap (◌∷◌ x) (append_nil xs)

take_full : (n : ℕ) (xs ys : List Task) → length xs ≡ n → take n (xs ++ ys) ≡ xs
take_full n [] ys h = let e : n ≡ 0 = omega arith in rw e
take_full n (x ∷ xs) ys h =
    let e : n ≡ suc (length xs) = omega arith in
    rw e (ap (◌∷◌ x) (take_full (length xs) xs ys refl))

accept_all_lem :
    (tasks : List Task) (w : Channel)
    → length w.tasks ≤ w.capacity
    → accept_all w tasks ≡ record w { tasks = take w.capacity (w.tasks ++ tasks) }
accept_all_lem [] w h = rw (append_nil w.tasks, take_all w.capacity w.tasks h)
accept_all_lem (task ∷ tasks) w h = elim (Bool-cases (ltb (length w.tasks) w.capacity)) [
  | inl room ↦ rw room (
      accept_all_lem tasks (record w { tasks = w.tasks ++ task ∷ [] })
        (ground (arith, length-append w.tasks (task ∷ [])))
      ∙ rw (append-snoc w.tasks tasks task))
  | inr full ↦
      let len : length w.tasks ≡ w.capacity = ground arith in
      rw full (
        accept_all_lem tasks w h
        ∙ rw (
          take_full w.capacity w.tasks tasks len,
          take_full w.capacity w.tasks (task ∷ tasks) len,
        ))
]

dispatch_found-other :
    (iccid other : String) (task : Task) (r : Registry) (found : Option Channel)
    → str_eq other iccid ≡ false
    → lookup iccid (dispatch_found other task r found).0 ≡ lookup iccid r
unfolding dispatch_found
dispatch_found-other iccid other task r none ne = refl
dispatch_found-other iccid other task r (some w) ne =
    elim (Bool-cases (ltb (length w.tasks) w.capacity)) [
      | inl room ↦
          rw room (lookup-insert other iccid (record w { tasks = w.tasks ++ task ∷ [] }) r ∙ rw ne)
      | inr full ↦ rw full
    ]

dispatch_found-same :
    (iccid : String) (task : Task) (r : Registry) (w : Channel)
    → lookup iccid r ≡ some w
    → lookup iccid (dispatch_found iccid task r (some w)).0 ≡ some (accept w task)
unfolding dispatch_found
dispatch_found-same iccid task r w e = elim (Bool-cases (ltb (length w.tasks) w.capacity)) [
  | inl room ↦
      let same : str_eq iccid iccid ≡ true = (eq_iff iccid iccid).1 refl in
      rw room (lookup-insert iccid iccid (record w { tasks = w.tasks ++ task ∷ [] }) r ∙ rw same)
  | inr full ↦ rw full e
]

dispatch_to-lookup :
    (iccid other : String) (task : Task) (r : Registry) (w : Channel)
    → lookup iccid r ≡ some w
    → lookup iccid (dispatch_to other task r).0
      ≡ some (if str_eq other iccid then accept w task else w)
unfolding dispatch_to
dispatch_to-lookup iccid other task r w e = elim (Bool-cases (str_eq other iccid)) [
  | inl same ↦
      let eq : other ≡ iccid = (eq_iff other iccid).0 same in
      rw (same, eq, e) (dispatch_found-same iccid task r w e)
  | inr ne ↦ rw ne (dispatch_found-other iccid other task r (lookup other r) ne ∙ e)
]

answer-registry :
    (iccid : String) (r : Router) (result : Registry × Option DispatchError)
    → (answer iccid r result).0.registry ≡ result.0
unfolding answer
answer-registry iccid r (registry, none) = refl
answer-registry iccid r (registry, some modem_not_found) = refl
answer-registry iccid r (registry, some modem_busy) = refl

dispatch_extracted-lookup :
    (iccid : String) (task : Task) (r : Router) (w : Channel) (to : Extracted)
    → lookup iccid r.registry ≡ some w
    → lookup iccid (dispatch_extracted task r to).0.registry
      ≡ some (if is_for iccid to then accept w task else w)
unfolding dispatch_extracted
dispatch_extracted-lookup iccid task r w (no_iccid err) e = e
dispatch_extracted-lookup iccid task r w (iccid_of other) e =
    ap (lookup iccid) (answer-registry other r (dispatch_to other task r.registry))
    ∙ dispatch_to-lookup iccid other task r.registry w e

dispatch_all-accept :
    (unmarshal : String → String → Option String) (iccid : String) (tasks : List Task) (r : Router)
    (w : Channel)
    → lookup iccid r.registry ≡ some w
    → lookup iccid (dispatch_all unmarshal tasks r).registry
      ≡ some (accept_all w (tasks_for unmarshal iccid tasks))
unfolding dispatch_all dispatch tasks_for
dispatch_all-accept unmarshal iccid [] r w e = e
dispatch_all-accept unmarshal iccid (task ∷ tasks) r w e =
    let to = extract_iccid unmarshal task in
    let next = dispatch_extracted-lookup iccid task r w to e in
    elim (Bool-cases (is_for iccid to)) [
      | inl mine ↦ rw mine (
          dispatch_all-accept unmarshal iccid tasks (dispatch_extracted task r to).0 (accept w task)
            (rw mine at next))
      | inr other ↦ rw other (
          dispatch_all-accept unmarshal iccid tasks (dispatch_extracted task r to).0 w
            (rw other at next))
    ]

-- Whatever tasks are dispatched, the channel of a registered SIM holds what it held and then the tasks
-- for that SIM alone, in the order in which they came, up to its capacity: what comes later than that
-- is dropped, and nothing that waits is.
pub lookup-dispatch_all :
    (unmarshal : String → String → Option String) (iccid : String) (tasks : List Task) (r : Router)
    (w : Channel)
    → lookup iccid r.registry ≡ some w
    → length w.tasks ≤ w.capacity
    → lookup iccid (dispatch_all unmarshal tasks r).registry
      ≡ some (record w { tasks = take w.capacity (w.tasks ++ tasks_for unmarshal iccid tasks) })
lookup-dispatch_all unmarshal iccid tasks r w e h =
    dispatch_all-accept unmarshal iccid tasks r w e
    ∙ ap some (accept_all_lem (tasks_for unmarshal iccid tasks) w h)
