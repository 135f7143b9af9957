-- ===== src/DiskQueue/Drains.antt =====
-- What a drain does to the files of the directory.
pub mod Keeps
use mathlib.Core.List.{append-nil, append_assoc}
use Prim.Native.String.{String}
use text.Mathlib.Text.{◌==◌ as str_eq}
use text.Mathlib.TextEquality.{eq_iff}
use sms_gate.Prelude.{
  ap, sym, ◌∙◌, ℕ, ◌≡◌, refl, ◌≢◌, ◌↔◌, Bool, true, false, ◌&&◌, ◌||◌, Option, none, some, List, [],
  ◌∷◌, ◌++◌, arith, Bool-cases, Option-cases, inl, inr, if◌then◌else◌, All,
}
use sms_gate.Prelude.Dict.{Dict, lookup, insert, delete, lookup-insert, lookup-delete}
use sms_gate.DiskQueue.{
  after_glob, after_read, after_parse, read, may_go_on, Entry, Bytes, Dir, PushFault, no_fault,
  write_fault, rename_fault, FileFault, sound, unreadable, Drained, entries, failed, read_failed,
  push_data, push, drain_from, drain,
}

abbrev pub contains : String → List String → Bool
contains id [] = false
contains id (other ∷ ids) = str_eq id other || contains id ids

abbrev pub Distinct : List String → Type 0
Distinct [] = Unit {0}
Distinct (id ∷ ids) = (contains id ids ≡ false) × Distinct ids

abbrev pub is_there : Option Bytes → Bool
is_there none = false
is_there (some bytes) = true

-- What the code relies on of filepath.Glob: it lists every file of the directory, once.
pub record IsGlob (glob : Dict Bytes → Option (List String)) : Type 0 where
  pub lists :
      (files : Dict Bytes)
      → (matches : List String) × (glob files ≡ some matches)
        × Distinct matches
        × ((id : String) → contains id matches ≡ is_there (lookup id files))

remove_all : List String → Dict Bytes → Dict Bytes
remove_all [] files = files
remove_all (id ∷ ids) files = remove_all ids (delete id files)

lookup-remove_all :
    (ids : List String) (id : String) (files : Dict Bytes)
    → lookup id (remove_all ids files) ≡ (if contains id ids then none else lookup id files)
unfolding remove_all
lookup-remove_all [] id files = refl
lookup-remove_all (gone ∷ ids) id files = ground (
  arith,
  lookup-remove_all ids id (delete gone files),
  lookup-delete gone id files,
  eq_iff gone id,
  eq_iff id gone,
)

some_inj : (a b : Bytes) → some a ≡ some b → a ≡ b
some_inj a b e = cc

absent_none : (o : Option Bytes) → is_there o ≡ false → o ≡ none
absent_none none e = refl
absent_none (some bytes) e = absurd (ground (arith, e))

there_some : (o : Option Bytes) → is_there o ≡ true → (bytes : Bytes) × (o ≡ some bytes)
there_some none e = absurd (ground (arith, e))
there_some (some bytes) e = (bytes, refl)

module _ (marshal : Entry → Option Bytes) (unmarshal : Bytes → Option Entry)
    (glob : Dict Bytes → Option (List String)) where
  unfoldable pub decoded : Option Bytes → Option Entry
  decoded none = none
  decoded (some bytes) = unmarshal bytes

  -- The entry that a file holds.
  unfoldable pub stored : String → Dict Bytes → Option Entry
  stored id files = decoded (lookup id files)

  -- Every listed file holds an entry under its id, and can be read and removed.
  unfoldable pub Sound : (String → FileFault) → List String → Dict Bytes → Type 0
  Sound faults ids files =
      All (λ id. (faults id ≡ sound) × ((e : Entry) × (stored id files ≡ some e) × (e.id ≡ id))) ids

  abbrev with_entry : Option Entry → List Entry → List Entry
  with_entry none es = es
  with_entry (some e) es = e ∷ es

  found : List String → Dict Bytes → List Entry
  found [] files = []
  found (id ∷ ids) files = with_entry (stored id files) (found ids files)

  stored-delete :
      (gone id : String) (files : Dict Bytes)
      → str_eq gone id ≡ false
      → stored id (delete gone files) ≡ stored id files
  unfolding stored decoded
  stored-delete gone id files apart = rw (lookup-delete gone id files, apart)

  Sound-delete :
      (faults : String → FileFault) (gone : String) (ids : List String) (files : Dict Bytes)
      → contains gone ids ≡ false
      → Sound faults ids files
      → Sound faults ids (delete gone files) × (found ids (delete gone files) ≡ found ids files)
  unfolding Sound found
  Sound-delete faults gone [] files c s = (tt, refl)
  Sound-delete faults gone (id ∷ ids) files c ((fine, (e, holds, named)), s) =
      let apart : str_eq gone id ≡ false = ground arith in
      let (s', same) = Sound-delete faults gone ids files (ground arith) s in
      let kept = stored-delete gone id files apart in
      (((fine, (e, kept ∙ holds, named)), s'), rw (kept, holds, same))

  stored_inv :
      (id : String) (files : Dict Bytes) (e : Entry)
      → stored id files ≡ some e
      → (bytes : Bytes) × (lookup id files ≡ some bytes) × (unmarshal bytes ≡ some e)
  unfolding stored decoded
  stored_inv id files e h = elim (Option-cases (lookup id files)) [
    | inl none_there ↦ absurd (none_some e (rw none_there at h))
    | inr (bytes, there) ↦ (bytes, there, (rw there at h))
  ]
    where
      none_some : (e : Entry) → none ≡ some e → ⊥
      none_some e h = cc

  drain_step :
      (faults : String → FileFault) (id : String) (more : List String) (out : List Entry)
      (files : Dict Bytes) (e : Entry)
      → faults id ≡ sound
      → stored id files ≡ some e
      → drain_from marshal unmarshal glob (id ∷ more) faults out files
        ≡ drain_from marshal unmarshal glob more faults (out ++ e ∷ []) (delete id files)
  unfolding drain_from read may_go_on
  drain_step faults id more out files e fine holds =
      let (bytes, there, parsed) = stored_inv id files e holds in simp (fine, there, parsed)

  drain_from-append :
      (faults : String → FileFault) (done more : List String) (out : List Entry)
      (files : Dict Bytes)
      → Distinct done
      → Sound faults done files
      → drain_from marshal unmarshal glob (done ++ more) faults out files
        ≡ drain_from marshal unmarshal glob more faults
            (out ++ found done files)
            (remove_all done files)
  unfolding Sound found remove_all
  drain_from-append faults [] more out files d s = simp (append-nil)
  drain_from-append faults (id ∷ done) more out files (apart, d) ((fine, (e, holds, named)), s) =
      let (s', same) = Sound-delete faults id done files apart s in
      simp (
        drain_step faults id (done ++ more) out files e fine holds,
        drain_from-append faults done more (out ++ e ∷ []) (delete id files) d s',
        same,
        holds,
        append_assoc,
      )

  read_fails :
      (faults : String → FileFault) (bad : String) (rest : List String) (out : List Entry)
      (files : Dict Bytes)
      → faults bad ≡ unreadable
      → drain_from marshal unmarshal glob (bad ∷ rest) faults out files
        ≡ (files, failed (read_failed bad))
  unfolding drain_from read after_read
  read_fails faults bad rest out files broken = rw broken

left_over :
    (id : String) (matches : List String) (files : Dict Bytes)
    → contains id matches ≡ is_there (lookup id files)
    → lookup id (remove_all matches files) ≡ none
left_over id matches files there =
    rw (lookup-remove_all matches id files) (elim (Bool-cases (is_there (lookup id files))) [
      | inl here ↦ rw (there, here) refl
      | inr absent ↦ rw (there, absent) (absent_none (lookup id files) absent)
    ])

module _ (marshal : Entry → Option Bytes) (unmarshal : Bytes → Option Entry)
    (glob : Dict Bytes → Option (List String)) where
  drained :
      (faults : String → FileFault) (dir : Dir) (matches : List String)
      → glob dir.files ≡ some matches
      → Distinct matches
      → Sound marshal unmarshal glob faults matches dir.files
      → drain marshal unmarshal glob faults dir ≡ (
        record dir { files = remove_all matches dir.files },
        entries (found marshal unmarshal glob matches dir.files),
      )
  unfolding drain after_glob
  drained faults dir matches g d s =
      let run = drain_from-append marshal unmarshal glob faults matches [] [] dir.files d s in
      let run' = (rw (append-nil matches) at run) in simp (g, run')

  -- A drain that cannot read a file returns that error alone, although it has removed the files that
  -- it had read before: their entries are gone, all other files are left.
  pub drain_loses :
      (faults : String → FileFault) (dir : Dir) (done rest : List String) (bad : String)
      → glob dir.files ≡ some (done ++ bad ∷ rest)
      → Distinct done
      → Sound marshal unmarshal glob faults done dir.files
      → faults bad ≡ unreadable
      → let r = drain marshal unmarshal glob faults dir in
        (r.1 ≡ failed (read_failed bad))
        × ((id : String)
            → lookup id r.0.files ≡ (if contains id done then none else lookup id dir.files))
  unfolding drain after_glob
  drain_loses faults dir done rest bad g d s broken =
      let run =
        drain_from-append marshal unmarshal glob faults done (bad ∷ rest) [] dir.files d s in
      simp
        (
          g,
          run,
          read_fails marshal unmarshal glob faults bad rest
              (found marshal unmarshal glob done dir.files) (remove_all done dir.files) broken,
        )
        (refl, λ id. lookup-remove_all done id dir.files)
