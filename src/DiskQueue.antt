-- ===== src/DiskQueue.antt =====
-- The queue of messages on disk (internal/diskqueue/diskqueue.go). The directory is the contents of
-- its files <name>.json and <name>.tmp by name. JSON, filepath.Glob and `join`, the name that
-- filepath.Join makes of an id, are parameters. Which of the system calls fail, and what a failed one leaves, is given. Each method
-- holds the mutex, so it is one function from the directory before to the directory after.
pub mod Drains
mod Tests
use Prim.Native.String.{String}
use sms_gate.Prelude.{
  ℕ, Bool, true, false, Option, none, some, List, [], ◌∷◌, ◌++◌, length, if◌then◌else◌,
}
use sms_gate.Prelude.Int.{ℤ}
use sms_gate.Prelude.Dict.{Dict, lookup, insert, delete}

pub record Entry : Type 0 where
  pub id : String
  pub to : String
  pub body : String
  pub iccid : String
  pub created_at : ℕ
  pub retries : ℤ

abbrev pub Bytes : Type 0
Bytes = List ℕ

pub record Dir : Type 0 where
  pub files : Dict Bytes
  pub temps : Dict Bytes

-- os.MkdirAll, `true` if it succeeds; a directory that is there is left as it is.
unfoldable pub new : Bool → Dir → Option Dir
new true dir = some dir
new false dir = none

-- os.WriteFile fails and may leave a part of the file; os.Rename fails, and so may the removal of the
-- temporary file.
pub data PushFault : Type 0 where
  no_fault : PushFault
  write_fault : Option Bytes → PushFault
  rename_fault : Bool → PushFault

pub data PushError : Type 0 where
  marshal_failed write_failed rename_failed : PushError

-- What os.WriteFile makes of a file.
written : String → Option Bytes → Dict Bytes → Dict Bytes
written id none temps = temps
written id (some part) temps = insert id part temps

unfoldable pub push_data : String → Bytes → PushFault → Dir → Dir × Option PushError
unfolding written
push_data id bytes no_fault dir =
    let temps = insert id bytes dir.temps in
    (record dir { files = insert id bytes dir.files; temps = delete id temps }, none)
push_data id bytes (write_fault part) dir =
    (record dir { temps = written id part dir.temps }, some write_failed)
push_data id bytes (rename_fault removed) dir =
    let temps = insert id bytes dir.temps in
    (record dir { temps = if removed then delete id temps else temps }, some rename_failed)

-- What happens to one file of a drain: nothing, the read fails, the removal fails, or it finds the
-- file gone, which is no error.
pub data FileFault : Type 0 where
  sound unreadable unremovable gone : FileFault

pub data DrainError : Type 0 where
  glob_failed : DrainError
  read_failed unmarshal_failed remove_failed : String → DrainError

pub data Drained : Type 0 where
  entries : List Entry → Drained
  failed : DrainError → Drained

-- os.ReadFile.
read : FileFault → Option Bytes → Option Bytes
read unreadable contents = none
read _ contents = contents

-- os.Remove: whether the loop goes on.
may_go_on : FileFault → Bool
may_go_on unremovable = false
may_go_on _ = true

module _ (marshal : Entry → Option Bytes) (unmarshal : Bytes → Option Entry)
    (glob : Dict Bytes → Option (List String)) where
  unfoldable pub push : (String → String) → Entry → PushFault → Dir → Dir × Option PushError
  unfolding push_data
  push join e fault dir = elim (marshal e) [
    | none ↦ (dir, some marshal_failed)
    | some bytes ↦ push_data (join e.id) bytes fault dir
  ]

  -- The removal of a file that was read and parsed, and the files behind it.
  unfoldable pub after_parse :
      String
      → FileFault
      → Option Entry
      → (List Entry → Dict Bytes → Dict Bytes × Drained)
      → List Entry
      → Dict Bytes
      → Dict Bytes × Drained
  unfolding may_go_on
  after_parse id fault none go out files = (files, failed (unmarshal_failed id))
  after_parse id fault (some e) go out files =
      if may_go_on fault
      then go (out ++ e ∷ []) (delete id files)
      else (files, failed (remove_failed id))

  unfoldable pub after_read :
      String
      → FileFault
      → Option Bytes
      → (List Entry → Dict Bytes → Dict Bytes × Drained)
      → List Entry
      → Dict Bytes
      → Dict Bytes × Drained
  unfolding after_parse
  after_read id fault none go out files = (files, failed (read_failed id))
  after_read id fault (some bytes) go out files =
      after_parse id fault (unmarshal bytes) go out files

  unfoldable pub drain_from :
      List String → (String → FileFault) → List Entry → Dict Bytes → Dict Bytes × Drained
  unfolding read after_read
  drain_from [] faults out files = (files, entries out)
  drain_from (id ∷ matches) faults out files =
      after_read id (faults id) (read (faults id) (lookup id files)) (drain_from matches faults) out
        files

  unfoldable pub after_glob : (String → FileFault) → Dir → Option (List String) → Dir × Drained
  unfolding drain_from
  after_glob faults dir none = (dir, failed glob_failed)
  after_glob faults dir (some matches) =
      let (files, result) = drain_from matches faults [] dir.files in
      (record dir { files = files }, result)

  unfoldable pub drain : (String → FileFault) → Dir → Dir × Drained
  unfolding after_glob
  drain faults dir = after_glob faults dir (glob dir.files)

  unfoldable pub len : Dir → Option ℕ
  len dir = elim (glob dir.files) [ none ↦ none | some matches ↦ some (length matches) ]

-- `none` if the file is not there or its removal fails.
unfoldable pub remove : (String → String) → String → Bool → Dir → Option Dir
remove join id removable dir = elim (lookup (join id) dir.files) [
  | none ↦ none
  | some bytes ↦
      if removable then some (record dir { files = delete (join id) dir.files }) else none
]
