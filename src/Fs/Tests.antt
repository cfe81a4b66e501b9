-- ===== src/Fs/Tests.antt =====
-- A table with two files.
use arcade_os.Base.{
  ℕ, zero, suc, ◌<◌, ◌≡◌, ◌≢◌, refl, true, false, none, some, [], ◌∷◌, if◌then◌else◌, arith, length,
}
use arcade_os.Session.{same_string}
use arcade_os.Fs.{
  File, FileSystem, done, find_first, is_free, is_file_at, is_entry, file_at, no_file, max_filename,
  fs_get_file, fs_create_file, fs_edit_file, fs_delete_file,
}
use arcade_os.Fs.Paths.{path_normalize, name_of}
use arcade_os.Fs.Contents.{
  text_at, outcome, fs_create_file-text_at, fs_edit_file-text_at, fs_delete_file-text_at,
  fs_create_file_hidden,
}

-- The file /a with the text hi, and /b with a NUL in it.
abbrev file_a : File
file_a = record {
  name = 97 ∷ [];
  path = 47 ∷ 97 ∷ [];
  content = 104 ∷ 105 ∷ [];
  size = 2;
  in_use = true;
  is_directory = false;
}

abbrev file_b : File
file_b = record {
  name = 98 ∷ [];
  path = 47 ∷ 98 ∷ [];
  content = 1 ∷ 0 ∷ 2 ∷ [];
  size = 3;
  in_use = true;
  is_directory = false;
}

abbrev two_files : FileSystem
two_files = record { filesystem = file_a ∷ file_b ∷ no_file ∷ []; current_dir = 47 ∷ [] }

new_path : path_normalize two_files.current_dir (99 ∷ []) ≡ some (47 ∷ 99 ∷ [])
unfolding path_normalize
new_path = refl

old_path : path_normalize two_files.current_dir (97 ∷ []) ≡ some (47 ∷ 97 ∷ [])
unfolding path_normalize
old_path = refl

new_lacking : fs_get_file (99 ∷ []) two_files ≡ some none
unfolding fs_get_file path_normalize is_file_at same_string
new_lacking = refl

old_there : fs_get_file (97 ∷ []) two_files ≡ some (some 0)
unfolding fs_get_file path_normalize is_file_at same_string
old_there = refl

free_entry : find_first is_free two_files.filesystem ≡ some 2
unfolding find_first is_free
free_entry = refl

new_name : length (name_of (47 ∷ 99 ∷ [])) < max_filename
unfolding name_of
new_name = omega arith

old_name : length (name_of (47 ∷ 97 ∷ [])) < max_filename
unfolding name_of
old_name = omega arith

only_a : (j : ℕ) → 0 ≢ j → is_entry (47 ∷ 97 ∷ []) (file_at two_files j) ≡ false
unfolding is_entry same_string
only_a zero other = absurd (other refl)
only_a (suc zero) other = refl
only_a (suc (suc zero)) other = refl
only_a (suc (suc (suc j))) other = refl

fs_create_file-text_at_example :
    outcome (47 ∷ 97 ∷ []) (fs_create_file (99 ∷ []) (111 ∷ 107 ∷ []) two_files)
    ≡ some (
      done 2,
      if same_string (47 ∷ 99 ∷ []) (47 ∷ 97 ∷ [])
          then some (111 ∷ 107 ∷ [])
          else text_at (47 ∷ 97 ∷ []) two_files,
    )
fs_create_file-text_at_example =
    fs_create_file-text_at (99 ∷ []) (111 ∷ 107 ∷ []) (47 ∷ 99 ∷ []) two_files 2 (47 ∷ 97 ∷ [])
      new_path new_lacking free_entry new_name (omega arith)

fs_create_file_hidden_example :
    outcome (47 ∷ 97 ∷ []) (fs_create_file (97 ∷ []) (111 ∷ 107 ∷ []) two_files)
    ≡ some (done 2, text_at (47 ∷ 97 ∷ []) two_files)
fs_create_file_hidden_example =
    fs_create_file_hidden (97 ∷ []) (111 ∷ 107 ∷ []) (47 ∷ 97 ∷ []) two_files 2 0 (47 ∷ 97 ∷ [])
      old_path old_there free_entry (omega arith) old_name (omega arith)

fs_edit_file-text_at_example :
    outcome (47 ∷ 98 ∷ []) (fs_edit_file (97 ∷ []) (111 ∷ 107 ∷ []) two_files)
    ≡ some (
      done 0,
      if same_string (47 ∷ 97 ∷ []) (47 ∷ 98 ∷ [])
          then some (111 ∷ 107 ∷ [])
          else text_at (47 ∷ 98 ∷ []) two_files,
    )
fs_edit_file-text_at_example =
    fs_edit_file-text_at (97 ∷ []) (111 ∷ 107 ∷ []) (47 ∷ 97 ∷ []) two_files 0 (47 ∷ 98 ∷ [])
      old_path old_there (omega arith)

fs_delete_file-text_at_example :
    outcome (47 ∷ 98 ∷ []) (fs_delete_file (97 ∷ []) two_files)
    ≡ some (
      done 0,
      if same_string (47 ∷ 97 ∷ []) (47 ∷ 98 ∷ []) then none else text_at (47 ∷ 98 ∷ []) two_files,
    )
fs_delete_file-text_at_example =
    fs_delete_file-text_at (97 ∷ []) (47 ∷ 97 ∷ []) two_files 0 (47 ∷ 98 ∷ []) old_path old_there
      only_a
