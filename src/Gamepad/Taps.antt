-- ===== src/Gamepad/Taps.antt =====
-- A key that is pressed and released between two polls.
use mathlib.Core.Path.{ap₂}
use arcade_os.Base.{
  ℕ, ◌+◌, ◌%◌, ◌≤◌, ◌<◌, ◌≡◌, ◌∙◌, refl, ap, Bool, true, false, not, ◌&&◌, ◌||◌, none, some, ◌==◌,
  arith,
}
use arcade_os.Gamepad.{
  Gamepads, keyboard_a, sources, num_sources, set_button, plain_key, kb_hook, get_state, wasd_bit,
  map_pad1_scancode, map_plain_scancode,
}
use arcade_os.Gamepad.Polls.{feeds, pressed, Delivers, get_state-Delivers}

-- The code is one of the keys of player 1 that stand for the button.
pub record IsKey (code bit : ℕ) : Type 0 where
  pub short : code < 0x60
  pub no_wasd : wasd_bit code ≡ none
  pub no_pad1 : map_pad1_scancode code ≡ none
  pub plain : map_plain_scancode code ≡ some bit

plain_key-button :
    (code bit : ℕ) (released : Bool) (g : Gamepads)
    → IsKey code bit
    → plain_key code released g ≡ set_button keyboard_a bit released g
unfolding plain_key
plain_key-button code bit released g key = rw (plain_key, key.no_wasd, key.no_pad1, key.plain) refl

abbrev plain_state : Gamepads → Gamepads
plain_state g = record g { kb_extended = false }

kb_hook-make :
    (code bit : ℕ) (g : Gamepads)
    → IsKey code bit
    → g.kb_extended ≡ false
    → kb_hook code g ≡ set_button keyboard_a bit false (plain_state g)
unfolding kb_hook
kb_hook-make code bit g key short = ground (
  arith,
  key.short,
  short,
  plain_key-button (code % 0x80) bit false (plain_state g),
  plain_key-button code bit false (plain_state g) key,
  small code,
)
  where
    small : (c : ℕ) → c < 0x60 → c % 0x80 ≡ c
    small c h = omega arith

kb_hook-break :
    (code bit : ℕ) (g : Gamepads)
    → IsKey code bit
    → g.kb_extended ≡ false
    → kb_hook (code + 0x80) g ≡ set_button keyboard_a bit true (plain_state g)
unfolding kb_hook
kb_hook-break code bit g key short = ground (
  arith,
  key.short,
  short,
  plain_key-button ((code + 0x80) % 0x80) bit true (plain_state g),
  plain_key-button code bit true (plain_state g) key,
  small code,
)
  where
    small : (c : ℕ) → c < 0x60 → (c + 0x80) % 0x80 ≡ c
    small c h = omega arith

-- The key goes down and up again.
abbrev pub tap : ℕ → Gamepads → Gamepads
tap code g = kb_hook (code + 0x80) (kb_hook code g)

abbrev tapped : ℕ → Gamepads → Gamepads
tapped bit g =
    set_button keyboard_a bit true (plain_state (set_button keyboard_a bit false (plain_state g)))

tap-tapped :
    (code bit : ℕ) (g : Gamepads)
    → IsKey code bit
    → g.kb_extended ≡ false
    → tap code g ≡ tapped bit g
unfolding set_button
tap-tapped code bit g key short =
    ap (kb_hook (code + 0x80)) (kb_hook-make code bit g key short)
    ∙ kb_hook-break code bit (set_button keyboard_a bit false (plain_state g)) key refl

-- The button is latched at keyboard A and held there no more; the other sources are as before.
abbrev Latched : ℕ → Gamepads → Gamepads → Type 0
Latched bit g g' =
    ((s : ℕ) → (g'.raw s).buttons bit ≡ ((g.raw s).buttons bit && not (s == keyboard_a)))
    × ((slot s : ℕ) → feeds g' slot s ≡ feeds g slot s)
    × ((s : ℕ) → g'.src_latch s bit ≡ (g.src_latch s bit || s == keyboard_a))

tapped-Latched : (bit : ℕ) (g : Gamepads) → Latched bit g (tapped bit g)
unfolding set_button
tapped-Latched bit g = ((λ s. ground arith), (λ slot s. ground arith), λ s. ground arith)

-- A key that is pressed and released between two polls is not lost, and it is seen once: if no
-- source of the player has its button held or latched before, and keyboard A feeds the player, then
-- the next poll has the button and the poll after it has not.
pub tap-get_state :
    (slot code bit : ℕ) (g : Gamepads)
    → slot ≤ 1
    → IsKey code bit
    → g.kb_extended ≡ false
    → feeds g slot keyboard_a ≡ true
    → pressed g slot sources bit ≡ false
    → let (first, g') = get_state slot (tap code g) in
      (first.buttons bit ≡ true) × ((get_state slot g').0.buttons bit ≡ false)
tap-get_state slot code bit g player key short here before = rw (tap-tapped code bit g key short) (
    by_polls (tapped bit g) (tapped-Latched bit g) (get_state-Delivers slot (tapped bit g) player)
      (get_state-Delivers slot (get_state slot (tapped bit g)).1 player))
  where
    by_polls :
        (g' : Gamepads)
        → Latched bit g g'
        → Delivers slot g' (get_state slot g')
        → Delivers slot (get_state slot g').1 (get_state slot (get_state slot g').1)
        → ((get_state slot g').0.buttons bit ≡ true)
          × ((get_state slot (get_state slot g').1).0.buttons bit ≡ false)
    by_polls g' (held, fed, latch) (buttons, held', fed', latch') (buttons', _, _, _) = (
      ground (arith, buttons bit, fed slot 0, latch 0, here),
      buttons' bit
          ∙ ap₂ ◌||◌ (quiet 0 (omega arith)) (
              ap₂ ◌||◌ (quiet 1 (omega arith))
                (ap₂ ◌||◌ (quiet 2 (omega arith)) (ap₂ ◌||◌ (quiet 3 (omega arith)) refl))),
    )
      where
        g'' : Gamepads
        g'' = (get_state slot g').1

        unheld : (s : ℕ) → s < 4 → (feeds g slot s && (g.raw s).buttons bit) ≡ false
        unheld s h = ground (arith, before)

        quiet :
            (s : ℕ)
            → s < num_sources
            → (feeds g'' slot s && ((g''.raw s).buttons bit || g''.src_latch s bit)) ≡ false
        quiet s h =
            ground (arith, held' s bit, fed' s, latch' s bit, h, held s, fed slot s, unheld s h)
