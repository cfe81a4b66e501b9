-- ===== src/Fs.antt =====
-- Console file system: the table of files and directories of src/fs.c, kept in memory.
mod Paths
mod Entries
mod Contents
mod Copies
mod Tests
use arcade_os.Base.{
  ℕ, zero, suc, ◌+◌, ◌-◌, ◌<◌, ◌≡◌, Bool, true, false, not, ◌&&◌, ◌||◌, Option, none, some, List,
  [], ◌∷◌, ◌++◌, map, ltb, leb, ◌==◌, if◌then◌else◌, length, get_or, set, take, ◌>>=◌,
}
use arcade_os.Session.{same_string}
use arcade_os.Vfs.{slash}
use arcade_os.Fs.Paths.{max_path, path_normalize, name_of, parent, parent_dir}

abbrev pub max_files : ℕ
max_files = 32

abbrev pub max_filename : ℕ
max_filename = 64

abbrev pub max_file_size : ℕ
max_file_size = 8192

-- Of `content`, the bytes that have been written; the C array goes on with other bytes.
pub record File : Type 0 where
  pub name : List ℕ
  pub path : List ℕ
  pub content : List ℕ
  pub size : ℕ
  pub in_use : Bool
  pub is_directory : Bool

pub record FileSystem : Type 0 where
  pub filesystem : List File
  pub current_dir : List ℕ

-- What a call returns: a number, or one below 0.
pub data Code : Type 0 where
  done : ℕ → Code
  failed : ℕ → Code

abbrev pub no_file : File
no_file = record {
  name = [];
  path = [];
  content = [];
  size = 0;
  in_use = false;
  is_directory = false;
}

pub is_free : File → Bool
is_free f = not f.in_use

pub is_entry : List ℕ → File → Bool
is_entry path f = f.in_use && same_string f.path path

pub is_file_at : List ℕ → File → Bool
is_file_at path f = f.in_use && (not f.is_directory && same_string f.path path)

pub is_folder : List ℕ → File → Bool
is_folder path f = f.in_use && (f.is_directory && same_string f.path path)

-- The loops that look for an entry, from index 0 on.
pub find_first : (File → Bool) → List File → Option ℕ
find_first p [] = none
find_first p (f ∷ fs) =
    let rest = find_first p fs in
    if p f then some 0 else elim rest [ none ↦ none | some i ↦ some (suc i) ]

abbrev pub put : ℕ → File → FileSystem → FileSystem
put i f fs = record fs { filesystem = set fs.filesystem i f }

abbrev pub file_at : FileSystem → ℕ → File
file_at fs i = get_or fs.filesystem i no_file

pub fs_initialize : FileSystem → FileSystem
fs_initialize fs =
    let cleared = record fs {
      filesystem =
          map {A = File} (λ f. record f { in_use = false; size = 0; is_directory = false })
            fs.filesystem;
    } in
    put 0
      (record (file_at cleared 0) {
        name = slash ∷ [];
        path = slash ∷ [];
        is_directory = true;
        in_use = true;
        size = 0;
      })
      cleared

-- A new entry for the path, where its name fits.
pub write_entry : List ℕ → List ℕ → ℕ → Bool → FileSystem → ℕ → Option (Code × FileSystem)
write_entry path content size folder fs i =
    if ltb (length (name_of path)) max_filename
    then some (
      done i,
      put i
          (record {
            name = name_of path;
            path = path;
            content = content;
            size = size;
            in_use = true;
            is_directory = folder;
          })
          fs,
    )
    else none

unfoldable pub fs_create_file : List ℕ → List ℕ → FileSystem → Option (Code × FileSystem)
unfolding find_first is_free write_entry
fs_create_file filename content fs = do
  path ← path_normalize fs.current_dir filename
  elim (find_first is_free fs.filesystem) [
    | none ↦ some (failed 1, fs)
    | some i ↦
        if ltb (length content) max_file_size
        then write_entry path content (length content) false fs i
        else none
  ]

pub fs_create_binary_file : List ℕ → List ℕ → FileSystem → Option (Code × FileSystem)
fs_create_binary_file filename content fs =
    if ltb max_file_size (length content) then some (failed 2, fs) else do
      path ← path_normalize fs.current_dir filename
      elim (find_first is_free fs.filesystem) [
        | none ↦ some (failed 1, fs)
        | some i ↦ write_entry path content (length content) false fs i
      ]

pub fs_create_directory : List ℕ → FileSystem → Option (Code × FileSystem)
fs_create_directory dirname fs = do
  path ← path_normalize fs.current_dir dirname
  elim (find_first (is_entry path) fs.filesystem) [
    | some j ↦ some (failed 2, fs)
    | none ↦ elim (find_first is_free fs.filesystem) [
      | none ↦ some (failed 1, fs)
      | some i ↦ write_entry path (file_at fs i).content 0 true fs i
    ]
  ]

-- A pointer into the table is an index; `some none` is NULL.
unfoldable pub fs_get_file : List ℕ → FileSystem → Option (Option ℕ)
unfolding find_first is_file_at
fs_get_file filename fs = do
  path ← path_normalize fs.current_dir filename
  some (find_first (is_file_at path) fs.filesystem)

pub fs_get_entry : List ℕ → FileSystem → Option (Option ℕ)
fs_get_entry filename fs = do
  path ← path_normalize fs.current_dir filename
  some (find_first (is_entry path) fs.filesystem)

pub fs_change_directory : List ℕ → FileSystem → Option (Code × FileSystem)
fs_change_directory path fs =
    if same_string path (46 ∷ 46 ∷ [])
    then some (done 0, record fs { current_dir = parent fs.current_dir })
    else do
      full ← path_normalize fs.current_dir path
      elim (find_first (is_folder full) fs.filesystem) [
        | none ↦ some (failed 1, fs)
        | some i ↦ some (done 0, record fs { current_dir = full })
      ]

unfoldable pub edit_entry : List ℕ → FileSystem → Option ℕ → Option (Code × FileSystem)
edit_entry content fs none = some (failed 1, fs)
edit_entry content fs (some i) =
    if ltb (length content) max_file_size
    then some
        (done 0, put i (record (file_at fs i) { content = content; size = length content }) fs)
    else none

unfoldable pub fs_edit_file : List ℕ → List ℕ → FileSystem → Option (Code × FileSystem)
unfolding find_first is_file_at edit_entry
fs_edit_file filename content fs = do
  path ← path_normalize fs.current_dir filename
  edit_entry content fs (find_first (is_file_at path) fs.filesystem)

unfoldable pub delete_entry : FileSystem → Option ℕ → Option (Code × FileSystem)
delete_entry fs none = some (failed 1, fs)
delete_entry fs (some i) =
    some (done 0, put i (record (file_at fs i) { in_use = false; size = 0 }) fs)

unfoldable pub fs_delete_file : List ℕ → FileSystem → Option (Code × FileSystem)
unfolding find_first is_entry delete_entry
fs_delete_file filename fs = do
  path ← path_normalize fs.current_dir filename
  delete_entry fs (find_first (is_entry path) fs.filesystem)

-- The bytes before the first NUL.
unfoldable pub c_string : List ℕ → List ℕ
c_string [] = []
c_string (c ∷ s) = let rest = c_string s in if c == 0 then [] else c ∷ rest

unfoldable pub copied : Code × FileSystem → Code × FileSystem
copied (done n, fs) = (done 0, fs)
copied (failed n, fs) = (failed 2, fs)

unfoldable pub copy_entry : List ℕ → FileSystem → Option ℕ → Option (Code × FileSystem)
unfolding copied
copy_entry dest fs none = some (failed 1, fs)
copy_entry dest fs (some i) =
    if leb max_file_size (file_at fs i).size
    then some (failed 3, fs)
    else do result ← fs_create_file dest (c_string (file_at fs i).content) fs; some (copied result)

unfoldable pub fs_copy_file : List ℕ → List ℕ → FileSystem → Option (Code × FileSystem)
unfolding copy_entry
fs_copy_file src dest fs = do found ← fs_get_file src fs; copy_entry dest fs found

-- The directory that a moved file goes to is made if there is none.
pub ensure_folder : Option (List ℕ) → FileSystem → Option (Code × FileSystem)
ensure_folder none fs = some (done 0, fs)
ensure_folder (some path) fs = elim (find_first (is_folder path) fs.filesystem) [
  | some j ↦ some (done 0, fs)
  | none ↦ elim (find_first is_free fs.filesystem) [
    | none ↦ some (failed 2, fs)
    | some i ↦ write_entry path (file_at fs i).content 0 true fs i
  ]
]

pub fs_move_file : List ℕ → List ℕ → FileSystem → Option (Code × FileSystem)
fs_move_file src dest fs = do
  from ← path_normalize fs.current_dir src
  elim (find_first (is_entry from) fs.filesystem) [
    | none ↦ some (failed 1, fs)
    | some i ↦ do
      path ← path_normalize fs.current_dir dest
      (code, fs') ← ensure_folder (parent_dir path) fs
      elim code [
        | failed n ↦ some (failed n, fs')
        | done n ↦
            if ltb (length (name_of path)) max_filename
            then some
                (done 0, put i (record (file_at fs' i) { name = name_of path; path = path }) fs')
            else none
      ]
  ]

pub fs_touch_file : List ℕ → FileSystem → Option (Code × FileSystem)
fs_touch_file filename fs = do
  found ← fs_get_file filename fs
  elim found [ some i ↦ some (done 0, fs) | none ↦ fs_create_file filename [] fs ]

pub count_files : (File → Bool) → List File → ℕ
count_files p [] = 0
count_files p (f ∷ fs) = let rest = count_files p fs in if p f then rest + 1 else rest

pub fs_get_file_count : FileSystem → ℕ
fs_get_file_count fs = count_files (λ f. f.in_use && not f.is_directory) fs.filesystem

pub fs_get_dir_count : FileSystem → ℕ
fs_get_dir_count fs = count_files (λ f. f.in_use && f.is_directory) fs.filesystem
