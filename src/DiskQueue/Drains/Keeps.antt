-- ===== src/DiskQueue/Drains/Keeps.antt =====
-- What the queue on disk keeps from a push to a drain.
use Prim.Native.String.{String}
use text.Mathlib.Text.{◌==◌ as str_eq}
use text.Mathlib.TextEquality.{eq_iff}
use sms_gate.Prelude.{
  ap, sym, ◌∙◌, ◌≡◌, refl, Bool, true, false, ◌&&◌, Option, none, some, List, [], ◌∷◌, arith,
  Bool-cases, inl, inr, if◌then◌else◌, All,
}
use sms_gate.Prelude.{◌≢◌}
use sms_gate.Prelude.Text.{codes}
use sms_gate.Prelude.Dict.{Dict, lookup, insert, lookup-insert}
use sms_gate.DiskQueue.Drains.{
  contains, IsGlob, is_there, some_inj, absent_none, there_some, decoded, stored, Sound, found,
  left_over, drained,
}
use sms_gate.DiskQueue.{
  Entry, Bytes, Dir, PushFault, no_fault, write_fault, rename_fault, FileFault, sound, Drained,
  entries, push_data, push, drain,
}

-- The first entry with an id.
abbrev pub entry_of : String → List Entry → Option Entry
entry_of id [] = none
entry_of id (e ∷ es) = if str_eq e.id id then some e else entry_of id es

-- Whether a call of push returns nil, by the system calls that fail in it.
abbrev pub succeeds : PushFault → Bool
succeeds no_fault = true
succeeds (write_fault part) = false
succeeds (rename_fault removed) = false

-- The entry of an id that was pushed last with success, or the given one.
abbrev pub last_pushed : String → Option Entry → List (Entry × PushFault) → Option Entry
last_pushed id earlier [] = earlier
last_pushed id earlier ((e, fault) ∷ pushes) =
    last_pushed id (if str_eq e.id id && succeeds fault then some e else earlier) pushes

-- What is asked of a drain behind a list of pushes: it succeeds, it returns for each id the entry
-- that was pushed last with success, and no file is left.
pub record IsDrained (pushes : List (Entry × PushFault)) (r : Dir × Drained) : Type 0 where
  pub out : List Entry
  pub returned : r.1 ≡ entries out
  pub latest : (id : String) → entry_of id out ≡ last_pushed id none pushes
  pub emptied : (id : String) → lookup id r.0.files ≡ none

-- An id that names one file: no character of it is a path separator.
abbrev pub IsName : String → Type 0
IsName id = All (λ c. c ≢ b'/') (codes id)

-- filepath.Join leaves such an id as it is.
abbrev pub IsJoin : (String → String) → Type 0
IsJoin join = (id : String) → IsName id → join id ≡ id

module _ (marshal : Entry → Option Bytes) (unmarshal : Bytes → Option Entry)
    (glob : Dict Bytes → Option (List String)) (join : String → String) where
  -- The payload of every file parses to an entry with the file's id.
  IsQueue : Dict Bytes → Type 0
  IsQueue files =
      (id : String) (bytes : Bytes)
      → lookup id files ≡ some bytes
      → (e : Entry) × (unmarshal bytes ≡ some e) × (e.id ≡ id)

  -- filepath.Join leaves the id, json.Marshal takes the entry, and json.Unmarshal reads it back.
  unfoldable pub IsMarshalled : Entry → Type 0
  IsMarshalled e =
      (join e.id ≡ e.id) × (bytes : Bytes) × (marshal e ≡ some bytes) × (unmarshal bytes ≡ some e)

  unfoldable pub run_pushes : List (Entry × PushFault) → Dir → Dir
  run_pushes [] dir = dir
  run_pushes ((e, fault) ∷ pushes) dir =
      run_pushes pushes (push marshal unmarshal glob join e fault dir).0

  push-files :
      (e : Entry) (fault : PushFault) (dir : Dir) (bytes : Bytes)
      → marshal e ≡ some bytes
      → join e.id ≡ e.id
      → (push marshal unmarshal glob join e fault dir).0.files
        ≡ (if succeeds fault then insert e.id bytes dir.files else dir.files)
  unfolding push push_data
  push-files e no_fault dir bytes m named = rw (m, named, push)
  push-files e (write_fault part) dir bytes m named = rw (m, push)
  push-files e (rename_fault removed) dir bytes m named = rw (m, push)

  push-IsQueue :
      (e : Entry) (fault : PushFault) (dir : Dir)
      → IsMarshalled e
      → IsQueue dir.files
      → IsQueue (push marshal unmarshal glob join e fault dir).0.files
  unfolding IsQueue IsMarshalled
  push-IsQueue e fault dir (named, bytes, m, u) q id bs there =
      let files = push-files e fault dir bytes m named in
      let there' = (rw files at there) in
      elim (Bool-cases (succeeds fault)) [
        | inr failing ↦ q id bs (rw failing at there')
        | inl ok ↦
            let there'' = (rw (ok, lookup-insert e.id id bytes dir.files) at there') in
            elim (Bool-cases (str_eq e.id id)) [
              | inl same ↦
                  let eq : some bytes ≡ some bs = (rw same at there'') in
                  (e, ap unmarshal (sym (some_inj bytes bs eq)) ∙ u, (eq_iff e.id id).0 same)
              | inr apart ↦ q id bs (rw apart at there'')
            ]
      ]

  stored-push :
      (e : Entry) (fault : PushFault) (dir : Dir) (id : String)
      → IsMarshalled e
      → stored marshal unmarshal glob id (push marshal unmarshal glob join e fault dir).0.files ≡ (
          if str_eq e.id id && succeeds fault
          then some e
          else stored marshal unmarshal glob id dir.files)
  unfolding IsMarshalled stored decoded
  stored-push e fault dir id (named, bytes, m, u) =
      let files = push-files e fault dir bytes m named in
      rw files (elim (Bool-cases (succeeds fault)) [
        | inr failing ↦ rw failing (ground arith)
        | inl ok ↦
            rw (ok, lookup-insert e.id id bytes dir.files)
              (elim (Bool-cases (str_eq e.id id)) [
                | inl same ↦ rw same u
                | inr apart ↦ rw apart refl
              ])
      ])

  stored-run_pushes :
      (pushes : List (Entry × PushFault)) (dir : Dir) (id : String)
      → All (λ (p : Entry × PushFault). IsMarshalled p.0) pushes
      → stored marshal unmarshal glob id (run_pushes pushes dir).files
        ≡ last_pushed id (stored marshal unmarshal glob id dir.files) pushes
  unfolding run_pushes
  stored-run_pushes [] dir id m = refl
  stored-run_pushes ((e, fault) ∷ pushes) dir id (m, ms) =
      let here = stored-push e fault dir id m in
      rw (← here) (stored-run_pushes pushes (push marshal unmarshal glob join e fault dir).0 id ms)

  run_pushes-IsQueue :
      (pushes : List (Entry × PushFault)) (dir : Dir)
      → All (λ (p : Entry × PushFault). IsMarshalled p.0) pushes
      → IsQueue dir.files
      → IsQueue (run_pushes pushes dir).files
  unfolding run_pushes
  run_pushes-IsQueue [] dir m q = q
  run_pushes-IsQueue ((e, fault) ∷ pushes) dir (m, ms) q =
      run_pushes-IsQueue pushes (push marshal unmarshal glob join e fault dir).0 ms
        (push-IsQueue e fault dir m q)

  empty-IsQueue : IsQueue []
  unfolding IsQueue lookup
  empty-IsQueue id bytes there = absurd (none_some bytes there)
    where
      none_some : (bytes : Bytes) → none ≡ some bytes → ⊥
      none_some bytes h = cc

  entry_of-found :
      (faults : String → FileFault) (ids : List String) (files : Dict Bytes) (id : String)
      → Sound marshal unmarshal glob faults ids files
      → entry_of id (found marshal unmarshal glob ids files)
        ≡ (if contains id ids then stored marshal unmarshal glob id files else none)
  unfolding found Sound
  entry_of-found faults [] files id s = refl
  entry_of-found faults (other ∷ ids) files id ((fine, (e, holds, named)), s) =
      let rest = entry_of-found faults ids files id s in
      rw holds (ground (arith, rest, holds, named, eq_iff e.id id, eq_iff id other))

  all_readable :
      (faults : String → FileFault) (ids : List String) (files : Dict Bytes)
      → ((id : String) → faults id ≡ sound)
      → IsQueue files
      → ((id : String) → contains id ids ≡ true → is_there (lookup id files) ≡ true)
      → Sound marshal unmarshal glob faults ids files
  unfolding Sound IsQueue stored decoded
  all_readable faults [] files fine q listed = tt
  all_readable faults (id ∷ ids) files fine q listed =
      let me : str_eq id id ≡ true = (eq_iff id id).1 refl in
      let there = listed id (ground (arith, me)) in
      let (bytes, h) = there_some (lookup id files) there in
      let (e, parsed, named) = q id bytes h in
      (
        (fine id, (e, rw h parsed, named)),
        all_readable faults ids files fine q (λ other c. listed other (ground (arith, c))),
      )

  latest_of :
      (id : String) (matches : List String) (files : Dict Bytes) {first : Option Entry}
      (last : Option Entry)
      → first ≡ (if contains id matches then stored marshal unmarshal glob id files else none)
      → stored marshal unmarshal glob id files ≡ last
      → contains id matches ≡ is_there (lookup id files)
      → first ≡ last
  unfolding stored decoded
  latest_of id matches files last one whole there = elim (Bool-cases (is_there (lookup id files))) [
    | inl here ↦ rw (one, there, here) whole
    | inr absent ↦
        let empty = absent_none (lookup id files) absent in
        rw (one, there, absent) (sym (ap (decoded marshal unmarshal glob) empty) ∙ whole)
  ]

  -- json.Marshal takes the entry, and json.Unmarshal reads it back.
  abbrev pub ReadsBack : Entry → Type 0
  ReadsBack e = (bytes : Bytes) × (marshal e ≡ some bytes) × (unmarshal bytes ≡ some e)

  marshalled :
      IsJoin join
      → (pushes : List (Entry × PushFault))
      → All (λ (p : Entry × PushFault). IsName p.0.id × ReadsBack p.0) pushes
      → All (λ (p : Entry × PushFault). IsMarshalled p.0) pushes
  unfolding IsMarshalled
  marshalled j [] kept = tt
  marshalled j ((e, fault) ∷ pushes) ((name, (bytes, m, u)), kept) =
      ((j e.id name, bytes, m, u), marshalled j pushes kept)

  -- From a directory without entries, after any pushes of entries whose ids have no path separator, of
  -- which some pushes may have failed, a drain in which no call fails returns for each id the entry that
  -- was pushed last with success, and leaves no file, if json.Unmarshal reads back what json.Marshal makes
  -- of the pushed entries, filepath.Join leaves an id without a separator as it is, and filepath.Glob lists
  -- the files.
  pub drain-run_pushes :
      (faults : String → FileFault) (pushes : List (Entry × PushFault)) (temps : Dict Bytes)
      → IsGlob glob
      → IsJoin join
      → ((id : String) → faults id ≡ sound)
      → All (λ (p : Entry × PushFault). IsName p.0.id × ReadsBack p.0) pushes
      → IsDrained pushes (
          drain marshal unmarshal glob faults
            (run_pushes pushes (record { files = []; temps = temps })))
  unfolding stored decoded lookup
  drain-run_pushes faults pushes temps g j fine kept =
      let m = marshalled j pushes kept in
      let dir = run_pushes pushes (record { files = []; temps = temps }) in
      let (matches, listed, distinct, there) = g.lists dir.files in
      let s =
        all_readable faults matches dir.files fine
          (run_pushes-IsQueue pushes (record { files = []; temps = temps }) m (empty-IsQueue))
          (λ id c. sym (there id) ∙ c) in
      rw (drained marshal unmarshal glob faults dir matches listed distinct s) (record {
        out = found marshal unmarshal glob matches dir.files;
        returned = refl;
        latest = λ id.
            let whole = stored-run_pushes pushes (record { files = []; temps = temps }) id m in
            let one = entry_of-found faults matches dir.files id s in
            latest_of id matches dir.files (last_pushed id none pushes) one whole (there id);
        emptied = λ id. left_over id matches dir.files (there id);
      })
