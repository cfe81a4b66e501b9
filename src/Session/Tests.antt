-- ===== src/Session/Tests.antt =====
-- The scoreboard at concrete inputs.
use arcade_os.Base.{ℕ, ◌≤◌, ◌≡◌, false, List, [], ◌∷◌, length, arith, if◌then◌else◌}
use arcade_os.Session.{Session, hiscore_max, guest, score_report, game_of_task}
use arcade_os.Session.Report.{is_ignored, Reported, score_report-Reported}

-- `/PONG.ELF`
abbrev pong : List ℕ
pong = 47 ∷ 80 ∷ 79 ∷ 78 ∷ 71 ∷ 46 ∷ 69 ∷ 76 ∷ 70 ∷ []

abbrev session : Session
session = record {
  player_count = 1;
  player1 = guest;
  player2 = [];
  board = record { game = 80 ∷ 79 ∷ 78 ∷ 71 ∷ []; user = guest; score = 10 } ∷ [];
  board_dirty = false;
}

score_report-Reported_example :
    (length (score_report pong 12 session).board ≤ hiscore_max)
    × ((score_report pong 12 session).board_dirty ≡ false
        → (score_report pong 12 session).board ≡ session.board)
    × (if is_ignored pong 12
        then score_report pong 12 session ≡ session
        else Reported
            (record { game = game_of_task pong; user = session.player1; score = 12 })
            session.board
            (score_report pong 12 session).board)
score_report-Reported_example = score_report-Reported pong 12 session (omega arith)
