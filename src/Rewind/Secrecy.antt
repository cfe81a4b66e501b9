-- ===== src/Rewind/Secrecy.antt =====
-- What of the system's combinations a game gets to see.
use arcade_os.Base.{
  ℕ, ◌+◌, ◌%◌, ◌^◌, ◌||◌, ◌≡◌, true, false, not, ◌&&◌, ltb, leb, if◌then◌else◌, arith,
}
use arcade_os.Gamepad.{PadState}
use arcade_os.Rewind.{chord, start_button, select_button, l1_button}
use arcade_os.Rewind.Filter.{Filter, menu_chord, filter_pad, lone_select}

-- The game never sees SELECT together with L1 or with START. A poll finds a combination when SELECT is
-- down together with one of the two, or when one of them is down right after a withheld SELECT was
-- released, outside the guard time; and the guard time lasts till 400 ms after the last such poll.
-- The game sees SELECT just in the poll that finds it released with neither of the two down, outside
-- the guard time, if it was withheld till then; and it is withheld from the first poll outside the
-- guard time that finds it down without the two, until a combination is held.
pub filter_pad-Secret :
    (now : ℕ) (st : PadState) (k : Filter)
    → let r = filter_pad true now 0 st k in
      (chord r.pad.buttons ≡ false)
      × (menu_chord r.pad.buttons ≡ false)
      × (r.pad.buttons select_button ≡ (
          k.select_pending
          && not (st.buttons select_button)
          && not (st.buttons start_button)
          && not (st.buttons l1_button)
          && leb k.cooldown_until now))
      × (r.filter.select_pending ≡ (
          not (menu_chord st.buttons)
          && not (chord st.buttons)
          && (if ltb now k.cooldown_until then k.select_pending else st.buttons select_button)))
      × (r.combo ≡ (
          menu_chord st.buttons
          || chord st.buttons
          || leb k.cooldown_until now
            && k.select_pending
            && not (st.buttons select_button)
            && (st.buttons start_button || st.buttons l1_button)))
      × (r.filter.cooldown_until ≡ (if r.combo then (now + 400) % 2 ^ 32 else k.cooldown_until))
unfolding filter_pad lone_select
filter_pad-Secret now st k =
    (ground arith, ground arith, ground arith, ground arith, ground arith, ground arith)
