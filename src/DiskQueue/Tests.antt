-- ===== src/DiskQueue/Tests.antt =====
-- Runs of the queue on disk, and the theorems at concrete inputs.
use Prim.Native.String.{String}
use text.Mathlib.Text.{◌==◌ as str_eq}
use text.Mathlib.TextEquality.{eq_iff}
use sms_gate.Prelude.{
  leb, ◌≡◌, refl, true, Option, none, some, List, [], ◌∷◌, arith, Bool-cases, inl, inr,
  if◌then◌else◌,
}
use sms_gate.Prelude.Int.{pos}
use sms_gate.Prelude.Dict.{Dict, lookup, insert}
use sms_gate.DiskQueue.{
  Entry, Bytes, Dir, PushFault, no_fault, rename_fault, FileFault, sound, unreadable, entries,
  failed, read_failed, drain, push,
}
use sms_gate.DiskQueue.Drains.{
  Sound, stored, decoded, contains, IsGlob, is_there, Distinct, drain_loses,
}
use sms_gate.DiskQueue.Drains.Keeps.{IsDrained, drain-run_pushes, run_pushes}

abbrev entry : String → Entry
entry id = record {
  id = id;
  to = "+491";
  body = "hi";
  iccid = "89";
  created_at = 0;
  retries = pos 0;
}

-- A stand-in for JSON, on two entries.
abbrev marshal : Entry → Option Bytes
marshal e = some (if str_eq e.id "a" then 1 ∷ [] else 2 ∷ [])

abbrev unmarshal : Bytes → Option Entry
unmarshal bytes = elim bytes [
  | [] ↦ none
  | b ∷ bs ↦ some (if leb b 1 then entry "a" else entry "b")
]

-- The names of an association list, without repetition.
names : Dict Bytes → List String
names [] = []
names ((id, bytes) ∷ files) = let rest = names files in if contains id rest then rest else id ∷ rest

contains-names :
    (files : Dict Bytes) (id : String) → contains id (names files) ≡ is_there (lookup id files)
unfolding names lookup
contains-names [] id = refl
contains-names ((other, bytes) ∷ files) id =
    ground (arith, contains-names files id, contains-names files other, eq_iff id other)

names-Distinct : (files : Dict Bytes) → Distinct (names files)
unfolding names
names-Distinct [] = tt
names-Distinct ((other, bytes) ∷ files) = elim (Bool-cases (contains other (names files))) [
  | inl twice ↦ rw twice (names-Distinct files)
  | inr once ↦ rw once (once, names-Distinct files)
]

glob : Dict Bytes → Option (List String)
unfolding names
glob files = some (names files)

glob-IsGlob : IsGlob glob
unfolding glob
glob-IsGlob = record {
  lists = λ files. (names files, refl, names-Distinct files, λ id. contains-names files id);
}

abbrev same : String → String
same id = id

no_faults : String → FileFault
no_faults id = sound

-- An entry that is kept, one whose rename fails, and the first one again.
abbrev pushes : List (Entry × PushFault)
pushes = (entry "a", no_fault) ∷ (entry "b", rename_fault true) ∷ (entry "a", no_fault) ∷ []

kept_one :
    (drain marshal unmarshal glob no_faults
      (run_pushes marshal unmarshal glob same pushes (record { files = []; temps = [] }))).1
    ≡ entries (entry "a" ∷ [])
unfolding drain glob run_pushes push insert no_faults lookup
kept_one = refl

drain-run_pushes_example : IsDrained pushes (
    drain marshal unmarshal glob no_faults
      (run_pushes marshal unmarshal glob same pushes (record { files = []; temps = [] })))
unfolding no_faults
drain-run_pushes_example =
    drain-run_pushes marshal unmarshal glob same no_faults pushes [] glob-IsGlob (λ id name. refl)
      (λ id. refl)
      (
        (((λ e. omega arith), tt), (1 ∷ [], refl, refl)),
        (
          (((λ e. omega arith), tt), (2 ∷ [], refl, refl)),
          ((((λ e. omega arith), tt), (1 ∷ [], refl, refl)), tt),
        ),
      )

-- The second of two files cannot be read.
b_broken : String → FileFault
b_broken id = if str_eq id "b" then unreadable else sound

abbrev two_files : Dir
two_files = record { files = ("a", 1 ∷ []) ∷ ("b", 2 ∷ []) ∷ []; temps = [] }

drain_loses_example :
    ((drain marshal unmarshal glob b_broken two_files).1 ≡ failed (read_failed "b"))
    × ((id : String)
        → lookup id (drain marshal unmarshal glob b_broken two_files).0.files
          ≡ (if contains id ("a" ∷ []) then none else lookup id two_files.files))
unfolding b_broken glob Sound stored decoded lookup
drain_loses_example =
    drain_loses marshal unmarshal glob b_broken two_files ("a" ∷ []) [] "b" refl (refl, tt)
      ((refl, (entry "a", refl, refl)), tt) refl
