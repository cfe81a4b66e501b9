-- ===== src/Keyboard/Modifiers.antt =====
-- What a sequence of scancodes does: the modifiers, and the events that come of it.
use mathlib.Core.List.{append_assoc, append-nil}
use arcade_os.Base.{
  subst, ℕ, ◌+◌, ◌%◌, ◌≤◌, ◌<◌, ◌≡◌, ◌∙◌, refl, sym, ap, Bool, true, false, ◌&&◌, ◌||◌, List, [],
  ◌∷◌, ◌++◌, leb, ◌==◌, if◌then◌else◌, length, length-append, arith, Bool-cases, inl, inr, All,
}
use arcade_os.Keyboard.{
  KeyEvent, Keyboard, Console, kb_push, character_of, is_shift, release, press, inject, sigint,
}
use arcade_os.Tasks.{kill_foreground}
use arcade_os.Keyboard.Layout.{us_character, character_of-us_character}
use arcade_os.Keyboard.Events.{IsValid, events, Pushed, kb_push-Pushed}

-- Which modifiers are held down.
pub record Held : Type 0 where
  pub shift : Bool
  pub ctrl : Bool
  pub alt : Bool

abbrev pub held : Keyboard → Held
held k = record { shift = k.shift_pressed; ctrl = k.ctrl_pressed; alt = k.alt_pressed }

-- A modifier is held from its make code to a break code of it.
abbrev pub after_code : ℕ → Held → Held
after_code code h = record {
  shift =
      if code == 0x2A || code == 0x36
      then true
      else if code == 0xAA || code == 0xB6
      then false
      else h.shift;
  ctrl = if code == 0x1D then true else if code == 0x9D then false else h.ctrl;
  alt = if code == 0x38 then true else if code == 0xB8 then false else h.alt;
}

-- The event of one code, if it has one: no break code, no modifier, and not Ctrl+C.
abbrev pub typed : ℕ → Held → List KeyEvent
typed code h =
    if leb 0x80 code
      || (code == 0x2A || code == 0x36 || (code == 0x1D || code == 0x38))
      || h.ctrl && code == 0x2E
    then []
    else record { scancode = code; character = us_character code h.shift } ∷ []

abbrev pub after_codes : List ℕ → Held → Held
after_codes [] h = h
after_codes (code ∷ codes) h = after_codes codes (after_code code h)

abbrev pub text : List ℕ → Held → List KeyEvent
text [] h = []
text (code ∷ codes) h = typed code h ++ text codes (after_code code h)

abbrev pub inject_all : {Pads : Type 0} → (ℕ → Pads → Pads) → List ℕ → Console Pads → Console Pads
inject_all hook [] c = c
inject_all hook (code ∷ codes) c = inject_all hook codes (inject hook code c)

kb_push-held : (evt : KeyEvent) (k : Keyboard) → held (kb_push evt k) ≡ held k
unfolding kb_push
kb_push-held evt k = ground arith

release-held :
    (code : ℕ) (k : Keyboard)
    → 0x80 ≤ code
    → code < 256
    → held (release (code % 0x80) k) ≡ after_code code (held k)
unfolding release
release-held code k h b = ground arith

module _ {Pads : Type 0} where
  -- What a code does to the modifiers and to the events, with room for one more event.
  abbrev Reacts : ℕ → Console Pads → Console Pads → Type 0
  Reacts code c c' =
      IsValid c'.keyboard
      × (held c'.keyboard ≡ after_code code (held c.keyboard))
      × (events c'.keyboard ≡ events c.keyboard ++ typed code (held c.keyboard))

  subst_to : (code : ℕ) (c d d' : Console Pads) → d ≡ d' → Reacts code c d' → Reacts code c d
  subst_to code c d d' e r = subst (Reacts code c) (sym e) r

  press-Reacts :
      (code : ℕ) (c : Console Pads)
      → code < 0x80
      → IsValid c.keyboard
      → length (events c.keyboard) < 255
      → Reacts code c (press code c)
  unfolding press
  press-Reacts code c make ok room = elim (Bool-cases (is_shift code)) [
    | inl e ↦
        subst_to code c (press code c)
          (record c { keyboard = record c.keyboard { shift_pressed = true } }) (rw (press, e) refl)
          (same, ground (arith, e, make), quiet (ground arith))
    | inr e ↦ elim (Bool-cases (code == 0x1D)) [
      | inl e' ↦
          subst_to code c (press code c)
            (record c { keyboard = record c.keyboard { ctrl_pressed = true } })
            (rw (press, e, e') refl) (same, ground (arith, e, e'), quiet (ground arith))
      | inr e' ↦ elim (Bool-cases (code == 0x38)) [
        | inl e'' ↦
            subst_to code c (press code c)
              (record c { keyboard = record c.keyboard { alt_pressed = true } })
              (rw (press, e, e', e'') refl) (same, ground (arith, e, e', e''), quiet (ground arith))
        | inr e'' ↦ elim (Bool-cases (c.keyboard.ctrl_pressed && code == 0x2E)) [
          | inl stop ↦
              subst_to code c (press code c) (record c { tasks = kill_foreground sigint c.tasks })
                (rw (press, e, e', e'', stop) refl)
                (same, ground (arith, e, e', e'', make), quiet (ground arith))
          | inr goes ↦
              subst_to code c (press code c) (record c { keyboard = kb_push evt c.keyboard })
                (rw (press, e, e', e'', goes) refl)
                (
                  pushed.0,
                  kb_push-held evt c.keyboard ∙ ground (arith, e, e', e'', make),
                  pushed.1 ∙ ground (arith, e, e', e'', goes, make, room, named),
                )
        ]
      ]
    ]
  ]
    where
      evt : KeyEvent
      evt = record { scancode = code; character = character_of code c.keyboard.shift_pressed }

      named :
          character_of code c.keyboard.shift_pressed ≡ us_character code c.keyboard.shift_pressed
      named = character_of-us_character code c.keyboard.shift_pressed make

      pushed : Pushed evt c.keyboard (kb_push evt c.keyboard)
      pushed = kb_push-Pushed evt c.keyboard ok

      same :
          {s a t : Bool}
          → IsValid (record c.keyboard { shift_pressed = s; ctrl_pressed = a; alt_pressed = t })
      same = record {
        places = ok.places;
        head_inside = ok.head_inside;
        tail_inside = ok.tail_inside;
      }

      quiet :
          typed code (held c.keyboard) ≡ []
          → events c.keyboard ≡ events c.keyboard ++ typed code (held c.keyboard)
      quiet nothing = sym (append-nil _) ∙ ap (λ q. events c.keyboard ++ q) (sym nothing)

  inject-Reacts :
      (hook : ℕ → Pads → Pads) (code : ℕ) (c : Console Pads)
      → code < 256
      → IsValid c.keyboard
      → length (events c.keyboard) < 255
      → Reacts code c (inject hook code c)
  unfolding inject
  inject-Reacts hook code c byte ok room = elim (Bool-cases (leb 0x80 code)) [
    | inl breaks ↦ rw breaks (
      record { places = ok.places; head_inside = ok.head_inside; tail_inside = ok.tail_inside },
      release-held code c.keyboard (ground (arith, breaks)) byte,
      sym (append-nil _),
    )
    | inr makes ↦
        subst_to code c (inject hook code c) (press code (record c { pads = hook code c.pads }))
          (rw (inject, makes) refl)
          (press-Reacts code (record c { pads = hook code c.pads }) (ground (arith, makes)) ok room)
  ]

  -- While the ring has room for them, a sequence of scancodes leaves the modifiers held that were
  -- pressed and not released since, and puts one event in for each make code of another key, in
  -- order, with the character that a US keyboard has on the key, with or without Shift as it is then; break codes and Ctrl+C give none.
  pub inject_all-text :
      (hook : ℕ → Pads → Pads) (codes : List ℕ) (c : Console Pads)
      → All (λ code. code < 256) codes
      → IsValid c.keyboard
      → length (events c.keyboard) + length codes ≤ 255
      → (held (inject_all hook codes c).keyboard ≡ after_codes codes (held c.keyboard))
        × (events (inject_all hook codes c).keyboard
            ≡ events c.keyboard ++ text codes (held c.keyboard))
  inject_all-text hook [] c bytes ok room = (refl, sym (append-nil _))
  inject_all-text hook (code ∷ codes) c bytes ok room =
      let (ok', same, put) = inject-Reacts hook code c bytes.0 ok (omega arith) in
      let (flags, more) = inject_all-text hook codes (inject hook code c) bytes.1 ok' (
        ground
          (arith, room, put, length-append (events c.keyboard) (typed code (held c.keyboard)))) in
      (
        flags ∙ ap (after_codes codes) same,
        more
            ∙ ap (λ h. events (inject hook code c).keyboard ++ text codes h) same
            ∙ ap (λ q. q ++ text codes (after_code code (held c.keyboard))) put
            ∙ append_assoc (events c.keyboard) _ _,
      )
