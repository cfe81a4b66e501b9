-- ===== src/Gamepad/Plugs.antt =====
-- USB pads that are plugged in and pulled out.
use mathlib.Core.Option.{some-injective}
use arcade_os.Base.{
  ℕ, zero, suc, ◌+◌, ◌≤◌, ◌≡◌, ◌≢◌, ◌∙◌, refl, ap, true, false, not, ◌||◌, Option, none, some, ◌==◌,
  if◌then◌else◌, arith, Bool-cases, inl, inr, ◌⊎◌,
}
use arcade_os.Gamepad.{
  Gamepads, write_at, is_none, has_addr, usb_0, usb_holds, free_slot, give_slot, return_slot,
  take_source, claim_source, release_source, usb_source_for_addr, usb_disconnect_addr,
}

-- A USB source that no pad has claimed feeds nobody, and both keyboards feed some player.
pub record IsResting (g : Gamepads) : Type 0 where
  pub spare_0 : is_none (g.usb_addr 0) ≡ true → g.assignment 2 ≡ none
  pub spare_1 : is_none (g.usb_addr 1) ≡ true → g.assignment 3 ≡ none
  pub keyboard_a : is_none (g.assignment 0) ≡ false
  pub keyboard_b : is_none (g.assignment 1) ≡ false

free_slot_lem :
    (g : Gamepads) (s : ℕ)
    → (free_slot g s ≡ none) ⊎ ((free_slot g s ≡ some 0) ⊎ (free_slot g s ≡ some 1))
unfolding free_slot
free_slot_lem g s = ground arith

has_addr-some : (o : Option ℕ) (v : ℕ) → has_addr o v ≡ true → o ≡ some v
has_addr-some none v h = cc
has_addr-some (some w) v h = ap some (ground (arith, h))

write_at_self : (f : ℕ → Option ℕ) (s : ℕ) (v : Option ℕ) → write_at f s v s ≡ v
write_at_self f s v = ground arith

-- One player's slot, 0 or 1.
return-give_player :
    (p s : ℕ) (a : ℕ → Option ℕ)
    → p ≤ 1
    → 2 ≤ s
    → a s ≡ none
    → is_none (a p) ≡ false
    → (t : ℕ) → return_slot s (some p) (give_slot s (some p) a) t ≡ a t
unfolding give_slot return_slot
return-give_player p s a player usb nobody kb t =
    ground (arith, kb_is p player, at t s, at t p, has_addr-some (a p) p, nobody, kb)
  where
    at : (t u : ℕ) → t ≡ u → a t ≡ a u
    at t u e = ap a e

    kb_is : (p : ℕ) → p ≤ 1 → (if p == 0 then 0 else 1) ≡ p
    kb_is p h = ground arith

return-give :
    (o : Option ℕ) (s : ℕ) (a : ℕ → Option ℕ)
    → (o ≡ none) ⊎ ((o ≡ some 0) ⊎ (o ≡ some 1))
    → 2 ≤ s
    → a s ≡ none
    → is_none (a 0) ≡ false
    → is_none (a 1) ≡ false
    → (t : ℕ) → return_slot s (give_slot s o a s) (give_slot s o a) t ≡ a t
unfolding give_slot return_slot
return-give none s a slots usb nobody kb_a kb_b t = ground (arith, at t)
  where
    at : (t : ℕ) → t ≡ s → a t ≡ a s
    at t e = ap a e
return-give (some p) s a (inl e) usb nobody kb_a kb_b t = cc
return-give (some p) s a (inr player) usb nobody kb_a kb_b t =
    ap (λ o. return_slot s o (give_slot s (some p) a) t)
      (write_at_self (if has_addr (a p) p then write_at a p none else a) s (some p))
    ∙ return-give_player p s a (ground (arith, is_player)) usb nobody
        (ground (arith, is_player, kb_of p)) t
  where
    is_player : (p ≡ 0) ⊎ (p ≡ 1)
    is_player = elim player [
      | inl e ↦ inl (some-injective _ _ e)
      | inr e ↦ inr (some-injective _ _ e)
    ]

    kb_of : (q : ℕ) → p ≡ q → is_none (a p) ≡ is_none (a q)
    kb_of q e = ap (λ x. is_none (a x)) e

-- The source `usb_0 + i` is claimed for the address and released again.
claim-release :
    (i addr : ℕ) (g : Gamepads)
    → i ≤ 1
    → is_none (g.usb_addr i) ≡ true
    → IsResting g
    → (t : ℕ) → (release_source addr i (claim_source i addr g)).assignment t ≡ g.assignment t
unfolding claim_source release_source
claim-release i addr g two spare resting t = rw (own addr) (
    return-give (free_slot seen (usb_0 + i)) (usb_0 + i) g.assignment
      (free_slot_lem seen (usb_0 + i)) (omega arith) (nobody i two spare) resting.keyboard_a
      resting.keyboard_b t)
  where
    seen : Gamepads
    seen = take_source i addr g

    own : (addr : ℕ) → not (has_addr (write_at g.usb_addr i (some addr) i) addr) ≡ false
    own addr = ground arith

    nobody : (i : ℕ) → i ≤ 1 → is_none (g.usb_addr i) ≡ true → g.assignment (usb_0 + i) ≡ none
    nobody zero h e = resting.spare_0 e
    nobody (suc zero) h e = resting.spare_1 e
    nobody (suc (suc i)) h e = absurd (omega arith)

-- Another address is not touched by the release.
release_source_other :
    (addr i : ℕ) (g : Gamepads) → has_addr (g.usb_addr i) addr ≡ false → release_source addr i g ≡ g
unfolding release_source
release_source_other addr i g other = rw (release_source, other) refl

claim_source-usb_addr :
    (i j addr : ℕ) (g : Gamepads) → j ≢ i → (claim_source i addr g).usb_addr j ≡ g.usb_addr j
unfolding claim_source
claim_source-usb_addr i j addr g other = ground arith

release-usb_addr :
    (i j addr : ℕ) (g : Gamepads) → j ≢ i → (release_source addr i g).usb_addr j ≡ g.usb_addr j
unfolding release_source
release-usb_addr i j addr g other = ground arith

-- Pulling a pad out undoes plugging it in: with a free USB source for its address, and nothing
-- assigned by hand meanwhile, every source feeds the player it fed before, the keyboard that the
-- pad had put aside included.
pub usb_disconnect_addr-usb_source_for_addr :
    (addr : ℕ) (g : Gamepads)
    → has_addr (g.usb_addr 0) addr ≡ false
    → has_addr (g.usb_addr 1) addr ≡ false
    → (is_none (g.usb_addr 0) || is_none (g.usb_addr 1)) ≡ true
    → IsResting g
    → (t : ℕ)
    → (usb_disconnect_addr addr (usb_source_for_addr addr g).1).assignment t ≡ g.assignment t
unfolding usb_disconnect_addr usb_source_for_addr
usb_disconnect_addr-usb_source_for_addr addr g new_0 new_1 spare resting t =
    elim (Bool-cases (is_none (g.usb_addr 0))) [
      | inl first ↦
          rw (new_0, new_1, first)
            (ap (λ (h : Gamepads). h.assignment t)
                (release_source_other addr 1 (release_source addr 0 (claim_source 0 addr g)) (
                  ap (λ o. has_addr o addr)
                    (release-usb_addr 0 1 addr (claim_source 0 addr g) (omega arith)
                      ∙ claim_source-usb_addr 0 1 addr g (omega arith))
                  ∙ new_1))
              ∙ claim-release 0 addr g (omega arith) first resting t)
      | inr taken ↦
          rw (new_0, new_1, taken, second taken)
            (ap (λ (h : Gamepads). (release_source addr 1 h).assignment t)
                (release_source_other addr 0 (claim_source 1 addr g) (
                  ap (λ o. has_addr o addr) (claim_source-usb_addr 1 0 addr g (omega arith))
                  ∙ new_0))
              ∙ claim-release 1 addr g (omega arith) (second taken) resting t)
    ]
  where
    second : is_none (g.usb_addr 0) ≡ false → is_none (g.usb_addr 1) ≡ true
    second taken = ground (arith, taken, spare)

free_slot_zero : (g : Gamepads) (s : ℕ) → usb_holds g s 0 ≡ false → free_slot g s ≡ some 0
unfolding free_slot
free_slot_zero g s free = rw free refl

-- A pad gets the slot of player 1 where no other pad that has reported holds it.
claim_source_zero :
    (i addr : ℕ) (g : Gamepads)
    → usb_holds (take_source i addr g) (usb_0 + i) 0 ≡ false
    → (t : ℕ) → 2 ≤ t
    → (claim_source i addr g).assignment t ≡ (if t == usb_0 + i then some 0 else g.assignment t)
unfolding claim_source give_slot
claim_source_zero i addr g free t usb =
    ap (λ o. give_slot (usb_0 + i) o g.assignment t)
      (free_slot_zero (take_source i addr g) (usb_0 + i) free)
    ∙ ground (arith, usb)

claim_source-connected :
    (i addr : ℕ) (g : Gamepads) (s : ℕ)
    → (g.raw s).connected ≡ false
    → ((claim_source i addr g).raw s).connected ≡ false
unfolding claim_source
claim_source-connected i addr g s quiet = ground (arith, quiet)

first_claim :
    (a : ℕ) (g : Gamepads)
    → g.usb_addr 0 ≡ none
    → g.usb_addr 1 ≡ none
    → (usb_source_for_addr a g).1 ≡ claim_source 0 a g
unfolding usb_source_for_addr
first_claim a g free_0 free_1 = ground (arith, free_0, free_1)

second_claim :
    (a b : ℕ) (g : Gamepads)
    → a ≢ b
    → g.usb_addr 0 ≡ some a
    → g.usb_addr 1 ≡ none
    → (usb_source_for_addr b g).1 ≡ claim_source 1 b g
unfolding usb_source_for_addr
second_claim a b g differ taken free_1 = ground (arith, taken, free_1, differ)

claim_source-own : (a : ℕ) (g : Gamepads) → (claim_source 0 a g).usb_addr 0 ≡ some a
unfolding claim_source
claim_source-own a g = ground arith

-- Two pads that are plugged in before either has sent a report both get the slot of player 1,
-- since a pad counts as holding its slot only once it has reported.
pub usb_source_for_addr_shared :
    (a b : ℕ) (g : Gamepads)
    → a ≢ b
    → g.usb_addr 0 ≡ none
    → g.usb_addr 1 ≡ none
    → (g.raw 2).connected ≡ false
    → (g.raw 3).connected ≡ false
    → let g' = (usb_source_for_addr b (usb_source_for_addr a g).1).1 in
      (g'.assignment 2 ≡ some 0) × (g'.assignment 3 ≡ some 0)
usb_source_for_addr_shared a b g differ free_0 free_1 quiet_2 quiet_3 =
    rw (first_claim a g free_0 free_1) (
      rw
        (second_claim a b g₁ differ (claim_source-own a g)
          (claim_source-usb_addr 0 1 a g (omega arith) ∙ free_1))
        (
          claim_source_zero 1 b g₁ (ground (arith, still_quiet)) 2 (omega arith) ∙ first,
          claim_source_zero 1 b g₁ (ground (arith, still_quiet)) 3 (omega arith),
        ))
  where
    g₁ : Gamepads
    g₁ = claim_source 0 a g

    first : g₁.assignment 2 ≡ some 0
    first = claim_source_zero 0 a g (ground (arith, quiet_3)) 2 (omega arith)

    still_quiet : (g₁.raw 2).connected ≡ false
    still_quiet = claim_source-connected 0 a g 2 quiet_2
