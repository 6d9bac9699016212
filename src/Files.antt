-- ===== src/Files.antt =====
-- The files and directories that internal/pki/save.go and internal/cliconfig/save.go write, over what each call of
-- package os answers.
pub mod Paths
pub mod Calls
pub mod Dirs
use Prim.Native.Char.{Char, code}
use hambo.Base.{
  String, Bool, true, false, not, List, [], ◌∷◌, ◌++◌, ◌<>◌, Option, none, some, Result, ok, err,
  Error, failure, if◌then◌else◌, ◌==◌, ◌&&◌, nat_eq,
}

-- What a path can hold: a directory, or a file with its text.
pub data Entry : Type 0 where
  directory : Entry
  file : String → Entry

-- What each path holds, if anything.
abbrev pub Files : Type 0
Files = String → Option Entry

abbrev pub replaced : Files → String → Option Entry → Files
replaced files path content p = if p == path then content else files p

-- `filepath.Join` of a clean directory and a name without a separator.
unfoldable pub join_path : String → String → String
join_path dir name = dir <> "/" <> name

-- `os.ReadFile`: `reads` is whether a file that is there can be read.
text_of : Option Entry → Option String
text_of none = none
text_of (some directory) = none
text_of (some (file text)) = some text

unfoldable pub read_file : Bool → String → Files → Option String
unfolding text_of
read_file reads path files = if reads then text_of (files path) else none

-- How the calls for one new file end: whether it can be opened, written, closed and, when what
-- follows fails, removed; and what a write or a close that fails leaves in it.
pub record NewFile : Type 0 where
  pub opens : Bool
  pub writes : Bool
  pub closes : Bool
  pub removes : Bool
  pub partial : String

-- The errors that were joined, none for nil, and the files after the call.
abbrev pub Outcome : Type 0
Outcome = List Error × Files

-- `os.OpenFile` with O_CREATE and O_EXCL.
unfoldable pub open_new : Bool → String → Files → Result Files
open_new opens path files = elim (files path) [
  | some content ↦ err (failure "file exists")
  | none ↦ if opens then ok (replaced files path (some (file ""))) else err (failure "open")
]

unfoldable pub write_new : NewFile → String → String → Files → Outcome
write_new calls path content files =
    if not calls.writes
    then (
      failure "write" ∷ (if calls.closes then [] else failure "close" ∷ []),
      replaced files path (some (file calls.partial)),
    )
    else if not calls.closes
    then (failure "close" ∷ [], replaced files path (some (file calls.partial)))
    else ([], replaced files path (some (file content)))

-- How `os.Remove` fails.
pub data RemoveError : Type 0 where
  not_exist refused : RemoveError

unfoldable pub os_remove : Bool → String → Files → Option RemoveError × Files
os_remove removes path files = if not removes then (some refused, files) else elim (files path) [
  | none ↦ (some not_exist, files)
  | some content ↦ (none, replaced files path none)
]

-- A file that does not exist is no error.
unfoldable pub passed_over : Option RemoveError → List Error
passed_over none = []
passed_over (some not_exist) = []
passed_over (some refused) = failure "remove" ∷ []

unfoldable pub remove_file : Bool → String → Files → Outcome
unfolding os_remove passed_over
remove_file removes path files =
    let removed = os_remove removes path files in (passed_over removed.0, removed.1)

-- A removal after others, whose errors are joined.
unfoldable pub then_remove : Bool → String → Outcome → Outcome
unfolding remove_file
then_remove removes path (errors, files) =
    let removed = remove_file removes path files in (errors ++ removed.0, removed.1)

-- `if err != nil { return err }`, and what follows it.
unfoldable pub go_on : Outcome → (Files → Outcome) → Outcome
go_on (e ∷ es, files) next = (e ∷ es, files)
go_on ([], files) next = next files

-- A deferred function that acts on an error alone.
unfoldable pub on_error : (Outcome → Outcome) → Outcome → Outcome
on_error undo ([], files) = ([], files)
on_error undo (e ∷ es, files) = undo (e ∷ es, files)

-- A path and the paths above it, the nearest first, from what was read of it so far.
unfoldable pub dirs_from : List String → String → String → List String
dirs_from above done String.[] = done ∷ above
dirs_from above done (String.◌∷◌ c s) =
    dirs_from (if nat_eq (code c) b'/' && not (done == "") then done ∷ above else above)
      (done <> String.◌∷◌ c String.[]) s

unfoldable pub dirs_to : String → List String
unfolding dirs_from
dirs_to dir = dirs_from [] "" dir

-- `os.MkdirAll` with `os.Mkdir`, after the directory above is there.
make_dir : (String → Bool) → String → Outcome → Outcome
make_dir makes d (e ∷ es, files) = (e ∷ es, files)
make_dir makes d ([], files) =
    if makes d then ([], replaced files d (some directory)) else (failure "mkdir" ∷ [], files)

unfoldable pub make_dirs : (String → Bool) → List String → Files → Outcome
unfolding make_dir
make_dirs makes [] files = ([], files)
make_dirs makes (d ∷ ds) files =
    let above = make_dirs makes ds files in
    elim (files d) [
      | none ↦ make_dir makes d above
      | some entry ↦ elim entry [
        | directory ↦ ([], files)
        | file text ↦ (failure "not a directory" ∷ [], files)
      ]
    ]

-- `makes` is whether `os.Mkdir` succeeds on a path that holds nothing.
unfoldable pub mkdir_all : (String → Bool) → String → Files → Outcome
unfolding dirs_to make_dirs
mkdir_all makes dir files = make_dirs makes (dirs_to dir) files
