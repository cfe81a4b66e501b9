-- ===== src/Session.antt =====
-- src/session.c: the players of the session and the scoreboard. A C string is the list of its
-- characters' codes up to the NUL; the board is `e[0 .. count)`.
pub mod Scores
pub mod Report
mod Tests
use arcade_os.Base.{
  ℕ, zero, suc, ◌+◌, Bool, true, false, not, ◌&&◌, ◌||◌, Option, none, some, List, [], ◌∷◌, ◌++◌,
  map, ltb, leb, ◌==◌, if◌then◌else◌, get_or, set, take, length,
}
use mathlib.Core.Option

-- `hiscore_entry_t`; scores on the board are above 0.
pub record Entry : Type 0 where
  pub game : List ℕ
  pub user : List ℕ
  pub score : ℕ

pub record Session : Type 0 where
  pub player_count : ℕ
  pub player1 : List ℕ
  pub player2 : List ℕ
  pub board : List Entry
  pub board_dirty : Bool

abbrev pub hiscore_max : ℕ
hiscore_max = 32

-- A character that is not safe on the screen or in JSON becomes `_`.
pub safe_char : ℕ → ℕ
safe_char c = if ltb c 0x20 || ltb 0x7E c || (c == 34 || c == 92) then 95 else c

-- At most `SESSION_NAME - 1` characters.
pub copy_name : List ℕ → List ℕ
unfolding safe_char
copy_name src = map safe_char (take 12 src)

abbrev pub guest : List ℕ
guest = 71 ∷ 85 ∷ 69 ∷ 83 ∷ 84 ∷ []

abbrev pub guest_2 : List ℕ
guest_2 = 71 ∷ 85 ∷ 69 ∷ 83 ∷ 84 ∷ 32 ∷ 50 ∷ []

pub name_or : List ℕ → List ℕ → List ℕ
name_or [] default = default
name_or (c ∷ cs) default = c ∷ cs

-- A null pointer is the empty name.
pub session_set : ℕ → List ℕ → List ℕ → Session → Session
unfolding copy_name name_or
session_set count p1 p2 s = record s {
  player_count = if count == 2 then 2 else 1;
  player1 = copy_name (name_or p1 guest);
  player2 = if count == 2 then copy_name (name_or p2 guest_2) else [];
}

-- What stands behind the last `/`.
pub base_name : List ℕ → List ℕ → List ℕ
base_name base [] = base
base_name base (c ∷ cs) = if c == 47 then base_name cs cs else base_name base cs

-- At most `n` characters, up to a `.`.
pub stem : ℕ → List ℕ → List ℕ
stem zero cs = []
stem (suc n) [] = []
stem (suc n) (c ∷ cs) = let rest = stem n cs in if c == 46 then [] else c ∷ rest

pub game_of_task : List ℕ → List ℕ
unfolding base_name stem
game_of_task name = stem 11 (base_name name name)

-- `strcmp(s, t) == 0`
unfoldable pub same_string : List ℕ → List ℕ → Bool
same_string [] [] = true
same_string [] (t ∷ ts) = false
same_string (s ∷ ss) [] = false
same_string (s ∷ ss) (t ∷ ts) = s == t && same_string ss ts

pub is_for : List ℕ → List ℕ → Entry → Bool
unfolding same_string
is_for game user e = same_string e.game game && same_string e.user user

-- The index of the first entry for the game and the user.
pub find_entry : List ℕ → List ℕ → List Entry → Option ℕ
unfolding is_for
find_entry game user [] = none
find_entry game user (e ∷ es) =
    if is_for game user e then some 0 else Option.map suc (find_entry game user es)

-- The search for the lowest score, from the index `i` on; `at` and `low` are the lowest so far.
pub lowest_from : List Entry → ℕ → ℕ → ℕ → ℕ
lowest_from [] i at low = at
lowest_from (e ∷ es) i at low =
    if ltb e.score low then lowest_from es (i + 1) i e.score else lowest_from es (i + 1) at low

abbrev pub no_entry : Entry
no_entry = record { game = []; user = []; score = 0 }

pub lowest : List Entry → ℕ
lowest [] = 0
lowest (e ∷ es) = lowest_from es 1 0 e.score

-- A new entry: behind the others, or in the place of the lowest if the board is full and the score
-- is higher.
pub add_entry : Entry → List Entry → Option (List Entry)
unfolding lowest lowest_from
add_entry new es =
    if leb hiscore_max (length es)
    then if leb new.score (get_or es (lowest es) no_entry).score
      then none
      else some (set es (lowest es) new)
    else some (es ++ new ∷ [])

-- An entry that is there already: a higher score replaces the old one.
pub raise_entry : ℕ → ℕ → List Entry → Option (List Entry)
raise_entry i score es =
    if ltb (get_or es i no_entry).score score
    then some (set es i (record (get_or es i no_entry) { score = score }))
    else none

-- The board after the report, or `none` if it does not change.
pub report : List ℕ → List ℕ → ℕ → List Entry → Option (List Entry)
unfolding find_entry add_entry raise_entry
report game user score es = elim (find_entry game user es) [
  | some i ↦ raise_entry i score es
  | none ↦ add_entry (record { game = game; user = user; score = score }) es
]

abbrev pub launcher : List ℕ
launcher = 76 ∷ 65 ∷ 85 ∷ 78 ∷ 67 ∷ 72 ∷ 69 ∷ 82 ∷ []

abbrev pub is_empty : List ℕ → Bool
is_empty [] = true
is_empty (c ∷ cs) = false

-- `session_score_report`, for the name of the current task; 0 stands for the scores below it too.
pub score_report : List ℕ → ℕ → Session → Session
unfolding report same_string game_of_task
score_report task_name score s =
    let game = game_of_task task_name in
    if score == 0 || (is_empty game || same_string game launcher)
    then s
    else elim (report game s.player1 score s.board) [
      | none ↦ s
      | some es ↦ record s { board = es; board_dirty = true }
    ]
