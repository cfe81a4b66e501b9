-- ===== src/Keyboard/Events.antt =====
-- The key events leave the ring in the order in which they came in.
use mathlib.Core.List.{append_assoc, append-nil, nil≢cons, head-eq_of_cons-eq, tail-eq_of_cons-eq}
use native.Mathlib.Nat.{mod-lt}
use arcade_os.Base.{
  ℕ, zero, suc, ◌+◌, ◌-◌, ◌%◌, ◌<◌, ◌≡◌, ◌∙◌, ◌⊎◌, inl, inr, refl, sym, ap, Bool, true, false, not,
  ◌&&◌, some, List, [], ◌∷◌, ◌++◌, leb, ◌==◌, if◌then◌else◌, set, length, length-set, arith,
  Bool-cases, All,
}
use arcade_os.Ring.{contents, contents-set, length-contents}
use arcade_os.Keyboard.{
  KeyEvent, no_event, Keyboard, key_buffer_size, kb_push, get_key, read_blocking,
}

pub record IsValid (k : Keyboard) : Type 0 where
  pub places : key_buffer_size ≡ length k.key_buffer
  pub head_inside : k.kb_head < key_buffer_size
  pub tail_inside : k.kb_tail < key_buffer_size

-- How many places the head is ahead of the tail.
abbrev pub waiting : ℕ → ℕ → ℕ
waiting head tail = if leb tail head then head - tail else head + key_buffer_size - tail

-- The events that have come in and are not read yet, the oldest first.
abbrev pub events : Keyboard → List KeyEvent
events k = contents no_event key_buffer_size k.key_buffer k.kb_tail (waiting k.kb_head k.kb_tail)

head-waiting :
    (head tail : ℕ)
    → head < key_buffer_size
    → tail < key_buffer_size
    → head ≡ (tail + waiting head tail) % key_buffer_size
head-waiting head tail h t = ground arith

waiting-push :
    (head tail : ℕ)
    → head < key_buffer_size
    → tail < key_buffer_size
    → (((head + 1) % key_buffer_size == tail) ≡ (255 == waiting head tail))
      × ((head + 1) % key_buffer_size == tail ≡ false
          → waiting ((head + 1) % key_buffer_size) tail ≡ suc (waiting head tail))
waiting-push head tail h t = (ground arith, λ room. ground arith)

waiting-pop :
    (head tail : ℕ)
    → head < key_buffer_size
    → tail < key_buffer_size
    → (tail == head) ≡ false
    → waiting head tail ≡ suc (waiting head ((tail + 1) % key_buffer_size))
waiting-pop head tail h t some_event = ground arith

-- A full ring holds 255 events and drops the next one. Else the event comes in behind the others.
abbrev pub Pushed : KeyEvent → Keyboard → Keyboard → Type 0
Pushed evt k k' =
    IsValid k' × (events k' ≡ (if length (events k) == 255 then events k else events k ++ evt ∷ []))

-- `kb_push` puts the event behind the others, or drops it when 255 are waiting.
pub kb_push-Pushed : (evt : KeyEvent) (k : Keyboard) → IsValid k → Pushed evt k (kb_push evt k)
unfolding kb_push
kb_push-Pushed evt k ok =
    let (is_full, longer) = waiting-push k.kb_head k.kb_tail ok.head_inside ok.tail_inside in
    let n =
      length-contents no_event key_buffer_size k.key_buffer k.kb_tail
        (waiting k.kb_head k.kb_tail) in
    elim (Bool-cases ((k.kb_head + 1) % key_buffer_size == k.kb_tail)) [
      | inl full ↦ rw full (ok, ground (arith, is_full, full, n))
      | inr room ↦ rw room (
        record {
          places = ok.places ∙ sym (length-set k.key_buffer k.kb_head evt);
          head_inside = mod-lt (k.kb_head + 1) {m = key_buffer_size} (omega arith);
          tail_inside = ok.tail_inside;
        },
        ap (contents no_event key_buffer_size (set k.key_buffer k.kb_head evt) k.kb_tail)
              (longer room)
            ∙ ap
                (λ h.
                  contents no_event key_buffer_size (set k.key_buffer h evt) k.kb_tail
                    (suc (waiting k.kb_head k.kb_tail)))
                (head-waiting k.kb_head k.kb_tail ok.head_inside ok.tail_inside)
            ∙ contents-set no_event key_buffer_size k.key_buffer evt k.kb_tail
                (waiting k.kb_head k.kb_tail) ok.places ok.tail_inside
                (ground (arith, ok.head_inside, ok.tail_inside, is_full, room))
            ∙ ground (arith, is_full, room, n),
      )
    ]

-- What `get_key` answers, and what it leaves.
abbrev pub Popped : Keyboard → KeyEvent × Keyboard → Type 0
Popped k (evt, k') =
    IsValid k' × (((events k ≡ []) × (evt ≡ no_event) × (k' ≡ k)) ⊎ (events k ≡ evt ∷ events k'))

-- `get_key` takes the oldest event out, or answers an empty event if none is waiting.
pub get_key-Popped : (k : Keyboard) → IsValid k → Popped k (get_key k)
unfolding get_key
get_key-Popped k ok = elim (Bool-cases (k.kb_tail == k.kb_head)) [
  | inl empty ↦ rw empty (
    ok,
    inl (
      ap (contents no_event key_buffer_size k.key_buffer k.kb_tail)
          (none_waiting k.kb_head k.kb_tail empty),
      refl,
      refl,
    ),
  )
  | inr some_event ↦ rw some_event (
    record {
      places = ok.places;
      head_inside = ok.head_inside;
      tail_inside = mod-lt (k.kb_tail + 1) {m = key_buffer_size} (omega arith);
    },
    inr (
        ap (contents no_event key_buffer_size k.key_buffer k.kb_tail)
          (waiting-pop k.kb_head k.kb_tail ok.head_inside ok.tail_inside some_event)),
  )
]
  where
    none_waiting : (head tail : ℕ) → (tail == head) ≡ true → waiting head tail ≡ 0
    none_waiting head tail e = ground arith

-- The reader answers at such an event, and skips the others.
abbrev pub is_char : KeyEvent → Bool
is_char evt = not (evt.scancode == 0) && not (evt.character == 0)

-- What is asked of the interrupts and the other tasks, which run in `schedule`: they put events
-- behind the others and take none out.
pub record Types (schedule : Keyboard → Keyboard) : Type 0 where
  pub behind :
      (k : Keyboard)
      → IsValid k
      → IsValid (schedule k) × ((more : List KeyEvent) × (events (schedule k) ≡ events k ++ more))

-- The first character among the waiting events is answered, and the events behind it stay, while
-- others may come in.
abbrev pub Answers : KeyEvent → List KeyEvent → ℕ × Keyboard → Type 0
Answers evt rest (c, k') =
    (c ≡ evt.character) × IsValid k' × ((more : List KeyEvent) × (events k' ≡ rest ++ more))

get_key-cons :
    (evt : KeyEvent) (es : List KeyEvent) (k : Keyboard)
    → IsValid k
    → events k ≡ evt ∷ es
    → ((get_key k).0 ≡ evt) × (events (get_key k).1 ≡ es) × IsValid (get_key k).1
get_key-cons evt es k ok e =
    let (valid, outcome) = get_key-Popped k ok in
    elim outcome [
      | inl (empty, none_read, same) ↦ absurd (nil≢cons (sym empty ∙ e))
      | inr first ↦ (head-eq_of_cons-eq (sym first ∙ e), tail-eq_of_cons-eq (sym first ∙ e), valid)
    ]

module _ (schedule : Keyboard → Keyboard) (types : Types schedule) where
  -- While a character is among the waiting events, `keyboard_read_blocking` returns, with a round
  -- for each event up to it: it answers the first such character, and has taken out that event
  -- and those before it and no other.
  pub read_blocking-Answers :
      (fuel : ℕ) (junk : List KeyEvent) (evt : KeyEvent) (rest : List KeyEvent) (k : Keyboard)
      → IsValid k
      → events k ≡ junk ++ evt ∷ rest
      → All (λ e. is_char e ≡ false) junk
      → is_char evt ≡ true
      → length junk < fuel
      → (r : ℕ × Keyboard) × (read_blocking schedule fuel k ≡ some r) × Answers evt rest r
  unfolding read_blocking
  read_blocking-Answers zero junk evt rest k ok e skips shows enough = absurd (omega arith)
  read_blocking-Answers (suc fuel) [] evt rest k ok e skips shows enough =
      let (first, left, valid) = get_key-cons evt rest k ok e in
      (
        ((get_key k).0.character, (get_key k).1),
        rw (ap is_char first ∙ shows) refl,
        (ap (λ e. e.character) first, valid, ([], left ∙ sym (append-nil rest))),
      )
  read_blocking-Answers (suc fuel) (j ∷ junk) evt rest k ok e skips shows enough =
      let (first, left, valid) = get_key-cons j (junk ++ evt ∷ rest) k ok e in
      let (valid', (more, behind)) = types.behind (get_key k).1 valid in
      let (r, e', (c, valid'', (more', behind'))) =
        read_blocking-Answers fuel junk evt (rest ++ more) (schedule (get_key k).1) valid'
          (behind ∙ ap (λ q. q ++ more) left ∙ append_assoc junk (evt ∷ rest) more) skips.1 shows
          (omega arith) in
      (
        r,
        rw (ap is_char first ∙ skips.0) e',
        (c, valid'', (more ++ more', behind' ∙ append_assoc rest more more')),
      )
