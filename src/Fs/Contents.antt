-- ===== src/Fs/Contents.antt =====
-- What the files hold, path by path, after each operation.
use mathlib.Core.Option
use mathlib.Core.Option.{some-injective}
use arcade_os.Base.{
  ℕ, zero, suc, ◌<◌, ◌≡◌, ◌≢◌, ◌∙◌, inl, inr, refl, sym, ap, subst, true, false, Option, none, some,
  List, [], ◌∷◌, if◌then◌else◌, ltb, arith, length, get_or, set, Bool-cases, ◌>>=◌,
}
use arcade_os.Session.{same_string}
use arcade_os.Session.Scores.{same_string-eq, same_string_refl}
use arcade_os.Fs.{
  File, FileSystem, Code, done, find_first, no_file, is_file_at, is_free, is_entry, file_at,
  max_filename, max_file_size, fs_get_file, fs_create_file, fs_edit_file, fs_delete_file,
  edit_entry, delete_entry,
}
use arcade_os.Fs.Paths.{path_normalize, name_of}
use arcade_os.Fs.Entries.{
  First, Absent, found-First, found_none, First-inside, First-holds, Absent-set_new, First-set_same,
  First-set_later, Absent-set, is_file_at-other, find_first-First, First-only, get_or-set_ne,
  is_entry-is_file_at, is_file_at-is_entry,
}

-- The content of the first file of the path.
pub text_in : List ℕ → List File → Option (List ℕ)
text_in path [] = none
text_in path (f ∷ fs) = if is_file_at path f then some f.content else text_in path fs

abbrev pub text_at : List ℕ → FileSystem → Option (List ℕ)
text_at path fs = text_in path fs.filesystem

text_in-First :
    (path : List ℕ) (fs : List File) (i : ℕ)
    → First (is_file_at path) fs i
    → text_in path fs ≡ some (get_or fs i no_file).content
unfolding text_in
text_in-First path [] i first = absurd (omega (arith, first))
text_in-First path (f ∷ fs) zero here = rw here refl
text_in-First path (f ∷ fs) (suc i) (other, first) = rw other (text_in-First path fs i first)

text_in-Absent :
    (path : List ℕ) (fs : List File) → Absent (is_file_at path) fs → text_in path fs ≡ none
unfolding text_in
text_in-Absent path [] absent = refl
text_in-Absent path (f ∷ fs) (other, absent) = rw other (text_in-Absent path fs absent)

-- The write of one entry leaves the files of the other paths.
text_in-set :
    (path : List ℕ) (fs : List File) (i : ℕ) (f : File)
    → is_file_at path (get_or fs i no_file) ≡ false
    → is_file_at path f ≡ false
    → text_in path (set fs i f) ≡ text_in path fs
unfolding text_in
text_in-set path [] i f old new = refl
text_in-set path (g ∷ fs) zero f old new = rw (old, new) refl
text_in-set path (g ∷ fs) (suc i) f old new = rw (text_in-set path fs i f old new) refl

get_or-set_self :
    (fs : List File) (i : ℕ) (f : File) → i < length fs → get_or (set fs i f) i no_file ≡ f
get_or-set_self [] i f inside = elim inside [ ]
get_or-set_self (g ∷ fs) zero f inside = refl
get_or-set_self (g ∷ fs) (suc i) f inside = get_or-set_self fs i f (omega (arith, inside))

text_in-set-First :
    (path : List ℕ) (fs : List File) (i : ℕ) (f : File)
    → i < length fs
    → First (is_file_at path) (set fs i f) i
    → text_in path (set fs i f) ≡ some f.content
text_in-set-First path fs i f inside first =
    text_in-First path (set fs i f) i first
    ∙ ap (λ g. some g.content) (get_or-set_self fs i f inside)

-- The write of the first file of a path.
text_in-write :
    (path q : List ℕ) (fs : List File) (i : ℕ) (f : File)
    → i < length fs
    → is_file_at path f ≡ true
    → First (is_file_at path) (set fs i f) i
    → (same_string path q ≡ false → is_file_at q (get_or fs i no_file) ≡ false)
    → text_in q (set fs i f) ≡ (if same_string path q then some f.content else text_in q fs)
text_in-write path q fs i f inside new first old = elim (Bool-cases (same_string path q)) [
  | inl same ↦ rw same (
      subst (λ r. text_in r (set fs i f) ≡ some f.content) (same_string-eq path q same)
        (text_in-set-First path fs i f inside first))
  | inr differ ↦
      rw differ (text_in-set q fs i f (old differ) (is_file_at-other path q f differ new))
]

-- The write behind the first file of a path.
text_in-later :
    (path q : List ℕ) (fs : List File) (i j : ℕ) (f : File)
    → First (is_file_at path) fs j
    → j < i
    → is_file_at path f ≡ true
    → is_file_at q (get_or fs i no_file) ≡ false
    → text_in q (set fs i f) ≡ text_in q fs
text_in-later path q fs i j f first later new old = elim (Bool-cases (same_string path q)) [
  | inl same ↦
      subst (λ r. text_in r (set fs i f) ≡ text_in r fs) (same_string-eq path q same)
        (text_in-First path (set fs i f) j (First-set_later (is_file_at path) fs i j f first later)
          ∙ ap (λ g. some g.content) (get_or-set_ne fs i j f later)
          ∙ sym (text_in-First path fs j first))
  | inr differ ↦ text_in-set q fs i f old (is_file_at-other path q f differ new)
]

-- The removal of the only entry of a path.
text_in-gone :
    (path q : List ℕ) (fs : List File) (i : ℕ) (f : File)
    → First (is_file_at path) fs i
    → ((j : ℕ) → i ≢ j → is_entry path (get_or fs j no_file) ≡ false)
    → ((r : List ℕ) → is_file_at r f ≡ false)
    → text_in q (set fs i f) ≡ (if same_string path q then none else text_in q fs)
text_in-gone path q fs i f first only gone = elim (Bool-cases (same_string path q)) [
  | inl same ↦ rw same (
      subst (λ r. text_in r (set fs i f) ≡ none) (same_string-eq path q same)
        (text_in-Absent path (set fs i f) (
          Absent-set (is_file_at path) fs i f first
            (λ j other. is_file_at-is_entry path (get_or fs j no_file) (only j other))
            (gone path))))
  | inr differ ↦ rw differ (
      text_in-set q fs i f
        (is_file_at-other path q (get_or fs i no_file) differ
          (First-holds (is_file_at path) fs i first))
        (gone q))
]

got_first :
    (filename path : List ℕ) (fs : FileSystem) (found : Option ℕ)
    → path_normalize fs.current_dir filename ≡ some path
    → fs_get_file filename fs ≡ some found
    → find_first (is_file_at path) fs.filesystem ≡ found
unfolding fs_get_file
got_first filename path fs found full got =
    some-injective (find_first (is_file_at path) fs.filesystem) found
      (sym (ap (λ n. n >>= (λ r. some (find_first (is_file_at r) fs.filesystem))) full) ∙ got)

gone_file : (q : List ℕ) (f : File) → is_file_at q (record f { in_use = false; size = 0 }) ≡ false
unfolding is_file_at
gone_file q f = refl

unused : (q : List ℕ) (f : File) → is_free f ≡ true → is_file_at q f ≡ false
unfolding is_free is_file_at
unused q f free = ground (arith, free)

is_file_at-new :
    (name path content : List ℕ) (size : ℕ)
    → is_file_at path (record {
      name = name;
      path = path;
      content = content;
      size = size;
      in_use = true;
      is_directory = false;
    })
      ≡ true
unfolding is_file_at
is_file_at-new name path content size = same_string_refl path

-- What a path holds after a call, with the number that the call returns.
abbrev pub outcome : List ℕ → Option (Code × FileSystem) → Option (Code × Option (List ℕ))
outcome path result = Option.map (λ r. (r.0, text_at path r.1)) result

-- An edit of a file that is there, with a text that fits, changes this file and no other.
pub fs_edit_file-text_at :
    (filename content path : List ℕ) (fs : FileSystem) (i : ℕ) (q : List ℕ)
    → path_normalize fs.current_dir filename ≡ some path
    → fs_get_file filename fs ≡ some (some i)
    → length content < max_file_size
    → outcome q (fs_edit_file filename content fs)
      ≡ some (done 0, if same_string path q then some content else text_at q fs)
unfolding fs_edit_file edit_entry
fs_edit_file-text_at filename content path fs i q full found short =
    rw (full, got, fits)
      (ap (λ t. some (done 0, t))
        (text_in-write path q fs.filesystem i edited
          (First-inside (is_file_at path) fs.filesystem i first) holds
          (First-set_same (is_file_at path) fs.filesystem i edited first holds)
          (λ differ. is_file_at-other path q (file_at fs i) differ holds)))
  where
    got : find_first (is_file_at path) fs.filesystem ≡ some i
    got = got_first filename path fs (some i) full found

    fits : ltb (length content) max_file_size ≡ true
    fits = ground (arith, short)

    first : First (is_file_at path) fs.filesystem i
    first = found-First (is_file_at path) fs.filesystem i got

    edited : File
    edited = record (file_at fs i) { content = content; size = length content }

    holds : is_file_at path edited ≡ true
    holds = First-holds (is_file_at path) fs.filesystem i first

-- A new file of a path that no file has is added, and the files of other paths stay.
pub fs_create_file-text_at :
    (filename content path : List ℕ) (fs : FileSystem) (i : ℕ) (q : List ℕ)
    → path_normalize fs.current_dir filename ≡ some path
    → fs_get_file filename fs ≡ some none
    → find_first is_free fs.filesystem ≡ some i
    → length (name_of path) < max_filename
    → length content < max_file_size
    → outcome q (fs_create_file filename content fs)
      ≡ some (done i, if same_string path q then some content else text_at q fs)
unfolding fs_create_file
fs_create_file-text_at filename content path fs i q full lacking free named short =
    rw (full, free, fits, name_fits)
      (ap (λ t. some (done i, t))
        (text_in-write path q fs.filesystem i new inside holds
          (Absent-set_new (is_file_at path) fs.filesystem i new inside absent holds)
          (λ differ. unused q (file_at fs i) (First-holds is_free fs.filesystem i first))))
  where
    fits : ltb (length content) max_file_size ≡ true
    fits = ground (arith, short)

    name_fits : ltb (length (name_of path)) max_filename ≡ true
    name_fits = ground (arith, named)

    first : First is_free fs.filesystem i
    first = found-First is_free fs.filesystem i free

    inside : i < length fs.filesystem
    inside = First-inside is_free fs.filesystem i first

    new : File
    new = record {
      name = name_of path;
      path = path;
      content = content;
      size = length content;
      in_use = true;
      is_directory = false;
    }

    holds : is_file_at path new ≡ true
    holds = is_file_at-new (name_of path) path content (length content)

    absent : Absent (is_file_at path) fs.filesystem
    absent =
        found_none (is_file_at path) fs.filesystem (got_first filename path fs none full lacking)

-- A new file of a path that a file in front of the first free entry has is not seen: the path holds
-- what it held before.
pub fs_create_file_hidden :
    (filename content path : List ℕ) (fs : FileSystem) (i j : ℕ) (q : List ℕ)
    → path_normalize fs.current_dir filename ≡ some path
    → fs_get_file filename fs ≡ some (some j)
    → find_first is_free fs.filesystem ≡ some i
    → j < i
    → length (name_of path) < max_filename
    → length content < max_file_size
    → outcome q (fs_create_file filename content fs) ≡ some (done i, text_at q fs)
unfolding fs_create_file
fs_create_file_hidden filename content path fs i j q full there free later named short =
    rw (full, free, fits, name_fits)
      (ap (λ t. some (done i, t))
        (text_in-later path q fs.filesystem i j new
          (found-First (is_file_at path) fs.filesystem j
            (got_first filename path fs (some j) full there))
          later (is_file_at-new (name_of path) path content (length content))
          (unused q (file_at fs i)
            (First-holds is_free fs.filesystem i (found-First is_free fs.filesystem i free)))))
  where
    fits : ltb (length content) max_file_size ≡ true
    fits = ground (arith, short)

    name_fits : ltb (length (name_of path)) max_filename ≡ true
    name_fits = ground (arith, named)

    new : File
    new = record {
      name = name_of path;
      path = path;
      content = content;
      size = length content;
      in_use = true;
      is_directory = false;
    }

-- When the only entry of a path is deleted, no file has the path, and the files of other paths stay.
pub fs_delete_file-text_at :
    (filename path : List ℕ) (fs : FileSystem) (i : ℕ) (q : List ℕ)
    → path_normalize fs.current_dir filename ≡ some path
    → fs_get_file filename fs ≡ some (some i)
    → ((j : ℕ) → i ≢ j → is_entry path (file_at fs j) ≡ false)
    → outcome q (fs_delete_file filename fs)
      ≡ some (done 0, if same_string path q then none else text_at q fs)
unfolding fs_delete_file delete_entry
fs_delete_file-text_at filename path fs i q full there only =
    rw (full, first_entry)
      (ap (λ t. some (done 0, t))
        (text_in-gone path q fs.filesystem i (record (file_at fs i) { in_use = false; size = 0 })
          first only (λ r. gone_file r (file_at fs i))))
  where
    first : First (is_file_at path) fs.filesystem i
    first =
        found-First (is_file_at path) fs.filesystem i
          (got_first filename path fs (some i) full there)

    first_entry : find_first (is_entry path) fs.filesystem ≡ some i
    first_entry = find_first-First (is_entry path) fs.filesystem i (
        First-only (is_entry path) fs.filesystem i
          (First-inside (is_file_at path) fs.filesystem i first)
          (is_entry-is_file_at path (file_at fs i)
            (First-holds (is_file_at path) fs.filesystem i first))
          only)
