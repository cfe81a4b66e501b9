-- ===== src/Session/Report.antt =====
-- What a report does to the scoreboard.
use arcade_os.Base.{
  false≢true, ℕ, ◌≤◌, ◌<◌, ◌≡◌, ◌∙◌, ◌⊎◌, inl, inr, refl, sym, Bool, true, false, ◌||◌, Option,
  none, some, List, [], ◌∷◌, ltb, leb, ◌==◌, if◌then◌else◌, get_or, length, length-set,
  length-append, arith, Bool-cases, Option-cases, OnSome-some, subst,
}
use arcade_os.Session.{
  Entry, Session, hiscore_max, same_string, is_for, find_entry, lowest, no_entry, add_entry,
  raise_entry, report, score_report, game_of_task, is_empty, launcher,
}
use arcade_os.Session.Scores.{
  best, Found, find_entry-Found, best-set_other, Missing, best-Missing, best-append_other,
  lowest-Low, is_for-same, is_for-score, is_for-own,
}

abbrev pub kept : List Entry → Option (List Entry) → List Entry
kept es none = es
kept es (some es') = es'

-- Everybody whom neither entry is for keeps the best score.
abbrev pub Others : Entry → Entry → List Entry → List Entry → Type 0
Others new old es es' =
    (g u : List ℕ) → is_for g u new ≡ false → is_for g u old ≡ false → best g u es' ≡ best g u es

-- The three outcomes of a report: the best score is the higher one; or the board is full, without an
-- entry for the game and the player, and the score is above none on it, and nothing changes; or the
-- board is full, without such an entry, and the new one takes the place of a lowest, lower one.
abbrev pub Reported : Entry → List Entry → List Entry → Type 0
Reported new es es' =
    ((best new.game new.user es' ≡ (
        if ltb (best new.game new.user es) new.score then new.score else best new.game new.user es))
      × Others new new es es')
    ⊎ ((es' ≡ es)
        × (length es ≡ hiscore_max)
        × (best new.game new.user es ≡ 0)
        × ((j : ℕ) → j < length es → new.score ≤ (get_or es j no_entry).score))
    ⊎ ((at : ℕ) × (at < length es)
        × (length es ≡ hiscore_max)
        × (best new.game new.user es ≡ 0)
        × ((get_or es at no_entry).score < new.score)
        × ((j : ℕ) → j < length es → (get_or es at no_entry).score ≤ (get_or es j no_entry).score)
        × (best new.game new.user es' ≡ new.score)
        × Others new (get_or es at no_entry) es es')

raise_entry-Reported :
    (game user : List ℕ) (score : ℕ) (es : List Entry) (i : ℕ)
    → Found game user es i
    → (length (kept es (raise_entry i score es)) ≡ length es)
      × Reported
          (record { game = game; user = user; score = score })
          es
          (kept es (raise_entry i score es))
unfolding raise_entry
raise_entry-Reported game user score es i (inside, mine, is_best, write) =
    elim (Bool-cases (ltb (get_or es i no_entry).score score)) [
      | inl higher ↦ rw higher (
        length-set es i _,
        inl (
          write _ (is_for-score game user _ score ∙ mine) ∙ ground (arith, higher, is_best),
          λ g u other other'.
              best-set_other g u es i _ (sym (is_for-score g u (get_or es i no_entry) score)) (
                is_for-score g u (get_or es i no_entry) score
                ∙ is_for-same g u game user (get_or es i no_entry) score mine
                ∙ other),
        ),
      )
      | inr lower ↦ rw lower (refl, inl (ground (arith, lower, is_best), λ g u other other'. refl))
    ]

add_entry-Reported :
    (game user : List ℕ) (score : ℕ) (es : List Entry)
    → 0 < score
    → length es ≤ hiscore_max
    → find_entry game user es ≡ none
    → (length (kept es (add_entry (record { game = game; user = user; score = score }) es))
        ≤ hiscore_max)
      × Reported
          (record { game = game; user = user; score = score })
          es
          (kept es (add_entry (record { game = game; user = user; score = score }) es))
unfolding add_entry
add_entry-Reported game user score es pos bound gone =
    elim (Bool-cases (leb hiscore_max (length es))) [
      | inr room ↦ rw room (
        ground (arith, room, length-append es (new ∷ [])),
        inl (
          missing.1 ∙ ground (arith, missing.0, pos),
          λ g u other other'. best-append_other g u es new other,
        ),
      )
      | inl full ↦ elim (Bool-cases (leb score (get_or es (lowest es) no_entry).score)) [
        | inl low ↦
            rw (full, low)
              (
                bound,
                inr (
                    inl (
                      refl,
                      ground (arith, full, bound),
                      missing.0,
                      λ j h. ground (arith, low, (lowest-Low es (ground (arith, full))).1 j h),
                    )),
              )
        | inr high ↦
            rw (full, high)
              (
                omega (arith, length-set es (lowest es) new),
                inr (
                    inr (
                      lowest es,
                      (lowest-Low es (ground (arith, full))).0,
                      ground (arith, full, bound),
                      missing.0,
                      ground (arith, high),
                      (lowest-Low es (ground (arith, full))).1,
                      (missing.2 (lowest es) (lowest-Low es (ground (arith, full))).0).0,
                      λ g u other other'.
                          best-set_other g u es (lowest es) new (other' ∙ sym other) other,
                    )),
              )
      ]
    ]
  where
    new : Entry
    new = record { game = game; user = user; score = score }

    missing : Missing game user es new
    missing = best-Missing game user es new gone (is_for-own game user score)

abbrev Bounded : List ℕ → List ℕ → ℕ → List Entry → Option (List Entry) → Type 0
Bounded game user score es o =
    (length (kept es o) ≤ hiscore_max)
    × Reported (record { game = game; user = user; score = score }) es (kept es o)

module _ (game user : List ℕ) (score : ℕ) (es : List Entry) where
  report-none :
      find_entry game user es ≡ none
      → add_entry (record { game = game; user = user; score = score }) es
        ≡ report game user score es
  unfolding report
  report-none gone = rw (report, gone) refl

  report-some :
      (i : ℕ)
      → find_entry game user es ≡ some i
      → raise_entry i score es ≡ report game user score es
  unfolding report
  report-some i found = rw (report, found) refl

  report-Reported :
      0 < score → length es ≤ hiscore_max → Bounded game user score es (report game user score es)
  report-Reported pos bound = elim (Option-cases (find_entry game user es)) [
    | inl gone ↦
        subst (Bounded game user score es) (report-none gone)
          (add_entry-Reported game user score es pos bound gone)
    | inr (i, found) ↦
        let (same, reported) = raise_entry-Reported game user score es i (
          OnSome-some (Found game user es) (find_entry game user es) i
            (find_entry-Found game user es) found) in
        subst (Bounded game user score es) (report-some i found) (omega (arith, same), reported)
  ]

abbrev stored : Session → Option (List Entry) → Session
stored s none = s
stored s (some es) = record s { board = es; board_dirty = true }

-- No report is made: the score is not above 0, or the task is no game.
abbrev pub is_ignored : List ℕ → ℕ → Bool
is_ignored name score =
    score == 0 || (is_empty (game_of_task name) || same_string (game_of_task name) launcher)

-- `session_score_report` keeps the board within 32 entries. Unless the report is ignored, the best
-- score of the game and the player becomes the higher one of the old and the reported, and nobody
-- else's changes; only on a full board without an entry for them it is different: then a lowest
-- entry is replaced, if its score is below the reported one, and nothing changes if no score on the
-- board is below it. A board that has changed is marked to be saved.
pub score_report-Reported :
    (name : List ℕ) (score : ℕ) (s : Session)
    → length s.board ≤ hiscore_max
    → (length (score_report name score s).board ≤ hiscore_max)
      × ((score_report name score s).board_dirty ≡ false
          → (score_report name score s).board ≡ s.board)
      × (if is_ignored name score
          then score_report name score s ≡ s
          else Reported
              (record { game = game_of_task name; user = s.player1; score = score })
              s.board
              (score_report name score s).board)
unfolding score_report
score_report-Reported name score s bound = elim (Bool-cases (is_ignored name score)) [
  | inl ignored ↦ rw ignored (bound, (λ clean. refl), refl)
  | inr counts ↦ rw counts (
      by_outcome (report (game_of_task name) s.player1 score s.board) (
        report-Reported (game_of_task name) s.player1 score s.board (ground (arith, counts)) bound))
]
  where
    by_outcome :
        (o : Option (List Entry))
        → Bounded (game_of_task name) s.player1 score s.board o
        → (length (stored s o).board ≤ hiscore_max)
          × ((stored s o).board_dirty ≡ false → (stored s o).board ≡ s.board)
          × Reported
              (record { game = game_of_task name; user = s.player1; score = score })
              s.board
              (stored s o).board
    by_outcome none (short, reported) = (short, (λ clean. refl), reported)
    by_outcome (some es) (short, reported) =
        (short, (λ clean. absurd (false≢true (sym clean))), reported)
