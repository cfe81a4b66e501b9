-- ===== src/Klog/Tests.antt =====
-- The log at concrete inputs.
use arcade_os.Base.{ℕ, refl, inl, false, List, [], ◌∷◌, ◌++◌, arith}
use arcade_os.Klog.{Klog}
use arcade_os.Klog.Recent.{printed, putc_all, IsRecent, putc_all-IsRecent}

abbrev empty_log : Klog
empty_log = record { text = []; klog_dirty = false; flushing = false; last_flush = 0 }

-- `OK`, carriage return, newline.
abbrev line : List ℕ
line = 79 ∷ 75 ∷ 13 ∷ 10 ∷ []

empty_log-IsRecent : IsRecent [] empty_log
empty_log-IsRecent = (omega arith, ([], refl, inl refl))

putc_all-IsRecent_example : IsRecent ([] ++ printed line) (putc_all line empty_log)
putc_all-IsRecent_example = putc_all-IsRecent line [] empty_log empty_log-IsRecent refl
