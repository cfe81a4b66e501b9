-- ===== src/Pipe/Order.antt =====
-- The bytes of a pipe leave it in the order in which they were written.
use mathlib.Core.List.{append_assoc, append-nil}
use native.Mathlib.Nat.{mod-lt, mod-add-mod}
use arcade_os.Base.{
  ℕ, zero, suc, ◌+◌, ◌-◌, ◌*◌, ◌%◌, ◌≤◌, ◌<◌, ◌≡◌, ◌∙◌, ◌⊎◌, inl, inr, refl, sym, ap, Bool, true,
  false, ◌&&◌, Option, none, some, List, [], ◌∷◌, ◌++◌, ◌==◌, if◌then◌else◌, get_or, set, take,
  drop, length, length-set, arith, Bool-cases,
}
use arcade_os.Ring.{contents, contents-set}
use arcade_os.Pipe.{
  pipe_buf_size, PipeBuf, World, pipe_has_readers, take_bytes, put_byte, write_bytes, pipe_write,
}

pub record IsValid (p : PipeBuf) : Type 0 where
  pub bytes : pipe_buf_size ≡ length p.buf
  pub inside : p.read_pos < pipe_buf_size
  pub at_end : p.write_pos ≡ (p.read_pos + p.count) % pipe_buf_size
  pub bound : p.count ≤ pipe_buf_size

-- The bytes that are in the pipe, the oldest first.
abbrev pub queue : PipeBuf → List ℕ
queue p = contents 0 pipe_buf_size p.buf p.read_pos p.count

mod-next : (n r c : ℕ) → ((r + c) % n + 1) % n ≡ (r + (c + 1)) % n
mod-next n r c = mod-add-mod (r + c) n 1 ∙ ap (λ x. x % n) (omega arith)

one_more : (c : ℕ) → c + 1 ≡ suc c
one_more c = omega arith

put_byte-queue :
    (b : ℕ) (p : PipeBuf)
    → IsValid p
    → p.count < pipe_buf_size
    → IsValid (put_byte b p) × (queue (put_byte b p) ≡ queue p ++ b ∷ [])
unfolding put_byte
put_byte-queue b p ok space = (
  record {
    bytes = ok.bytes ∙ sym (length-set p.buf p.write_pos b);
    inside = ok.inside;
    at_end =
        ap (λ x. (x + 1) % pipe_buf_size) ok.at_end ∙ mod-next pipe_buf_size p.read_pos p.count;
    bound = omega arith;
  },
  ap (contents 0 pipe_buf_size (set p.buf p.write_pos b) p.read_pos) (one_more p.count)
      ∙ ap (λ w. contents 0 pipe_buf_size (set p.buf w b) p.read_pos (suc p.count)) ok.at_end
      ∙ contents-set 0 pipe_buf_size p.buf b p.read_pos p.count ok.bytes ok.inside space,
)

-- What the copy loop gives and what it leaves.
abbrev Taken : ℕ → PipeBuf → List ℕ × PipeBuf → Type 0
Taken size p r = (r.0 ≡ take size (queue p)) × (queue r.1 ≡ drop size (queue p)) × IsValid r.1

-- The pipe after one byte has been taken.
abbrev after_byte : PipeBuf → PipeBuf
after_byte p = record p { read_pos = (p.read_pos + 1) % pipe_buf_size; count = p.count - 1 }

after_byte-queue :
    (p : PipeBuf) (c : ℕ)
    → p.count ≡ suc c
    → IsValid p
    → IsValid (after_byte p) × (queue p ≡ get_or p.buf p.read_pos 0 ∷ queue (after_byte p))
after_byte-queue p c e ok = (
  record {
    bytes = ok.bytes;
    inside = mod-lt (p.read_pos + 1) {m = pipe_buf_size} (omega arith);
    at_end =
        ok.at_end
        ∙ ap (λ x. x % pipe_buf_size) (omega (arith, e))
        ∙ sym (mod-add-mod (p.read_pos + 1) pipe_buf_size (p.count - 1));
    bound = omega (arith, ok.bound);
  },
  ap (contents 0 pipe_buf_size p.buf p.read_pos) e
      ∙ ap
          (λ c.
            get_or p.buf p.read_pos 0
            ∷ contents 0 pipe_buf_size p.buf ((p.read_pos + 1) % pipe_buf_size) c)
          (omega (arith, e)),
)

take_bytes_from :
    (size c : ℕ) (p : PipeBuf) → p.count ≡ c → IsValid p → Taken size p (take_bytes size p)
unfolding take_bytes
take_bytes_from zero c p e ok = (refl, refl, ok)
take_bytes_from (suc size) zero p e ok =
    let none_left : queue p ≡ [] = ap (contents 0 pipe_buf_size p.buf p.read_pos) e in
    rw (empty p e)
      (sym (ap (take (suc size)) none_left), none_left ∙ sym (ap (drop (suc size)) none_left), ok)
  where
    empty : (p : PipeBuf) → p.count ≡ 0 → (p.count == 0) ≡ true
    empty p e = ground arith
take_bytes_from (suc size) (suc c) p e ok =
    let (ok', same) = after_byte-queue p c e ok in
    let (given, left, valid) = take_bytes_from size c (after_byte p) (omega (arith, e)) ok' in
    rw (filled p c e) (
      ap (λ q. get_or p.buf p.read_pos 0 ∷ q) given ∙ sym (ap (take (suc size)) same),
      left ∙ sym (ap (drop (suc size)) same),
      valid,
    )
  where
    filled : (p : PipeBuf) (c : ℕ) → p.count ≡ suc c → (p.count == 0) ≡ false
    filled p c e = ground arith

-- The copy loop of `pipe_read` gives the oldest bytes, `size` of them if there are as many, and
-- leaves the others.
pub take_bytes-Taken : (size : ℕ) (p : PipeBuf) → IsValid p → Taken size p (take_bytes size p)
take_bytes-Taken size p ok = take_bytes_from size p.count p refl ok

-- The caller has to wait for room, and some task can still make it.
abbrev pub is_stuck : World → Bool
is_stuck w = (w.pipe.count == pipe_buf_size) && pipe_has_readers w

-- What is asked of the other tasks, which run in `schedule`: they take bytes out of the pipe in
-- order and put none in, and when the writer runs again after it has found the pipe full, there is
-- room or no reader is left.
pub record Reads (schedule : World → List ℕ × World) : Type 0 where
  pub in_order :
      (w : World)
      → IsValid w.pipe
      → IsValid (schedule w).1.pipe × (queue w.pipe ≡ (schedule w).0 ++ queue (schedule w).1.pipe)
  pub makes_room : (w : World) → is_stuck w ≡ true → is_stuck (schedule w).1 ≡ false

-- The first `n` bytes are behind those that were in the pipe, and of all these the readers have
-- taken the first ones. All are written, or else no reader is left.
abbrev pub Written : List ℕ → World → ℕ × List ℕ × World → Type 0
Written bytes w (n, taken, w') =
    (n ≤ length bytes)
    × (queue w.pipe ++ take n bytes ≡ taken ++ queue w'.pipe)
    × IsValid w'.pipe
    × ((n ≡ length bytes) ⊎ (pipe_has_readers w' ≡ false))

abbrev pub Answer : List ℕ → World → Option ℕ × List ℕ × World → Type 0
Answer bytes w (none, taken, w') =
    (pipe_has_readers w ≡ false) × (0 < length bytes) × (taken ≡ []) × (w' ≡ w)
Answer bytes w (some n, taken, w') =
    ((length bytes ≡ 0) ⊎ (pipe_has_readers w ≡ true)) × Written bytes w (n, taken, w')

module _ (schedule : World → List ℕ × World) (reads : Reads schedule) where
  write_bytes-Written :
      (fuel : ℕ) (bytes : List ℕ) (w : World)
      → IsValid w.pipe
      → 2 * length bytes + (if is_stuck w then 1 else 0) ≤ fuel
      → 0 < fuel
      → (r : ℕ × List ℕ × World) × (write_bytes schedule fuel bytes w ≡ some r) × Written bytes w r
  unfolding write_bytes
  write_bytes-Written zero bytes w ok enough some_fuel = absurd (omega arith)
  write_bytes-Written (suc fuel) [] w ok enough some_fuel =
      ((0, [], w), refl, (omega arith, append-nil _, ok, inl refl))
  write_bytes-Written (suc fuel) (b ∷ bs) w ok enough some_fuel =
      elim (Bool-cases (w.pipe.count == pipe_buf_size)) [
        | inl full ↦ elim (Bool-cases (pipe_has_readers w)) [
          | inl readers ↦
              let (ok', same) = reads.in_order w ok in
              let (r, e, (bound, order, valid, ends)) =
                write_bytes-Written fuel (b ∷ bs) (schedule w).1 ok'
                  (ground (arith, enough, full, readers, reads.makes_room w)) (omega arith) in
              (
                (r.0, (schedule w).0 ++ r.1, r.2),
                rw (full, readers, e) refl,
                (
                  bound,
                  ap (λ q. q ++ take r.0 (b ∷ bs)) same
                      ∙ append_assoc (schedule w).0 _ _
                      ∙ ap (λ q. (schedule w).0 ++ q) order
                      ∙ sym (append_assoc (schedule w).0 _ _),
                  valid,
                  ends,
                ),
              )
          | inr shut ↦ ((0, [], w), rw (full, shut) refl, (omega arith, append-nil _, ok, inr shut))
        ]
        | inr room ↦
            let (ok', put) = put_byte-queue b w.pipe ok (ground (arith, room, ok.bound)) in
            let (r, e, (bound, order, valid, ends)) =
              write_bytes-Written fuel bs (record w { pipe = put_byte b w.pipe }) ok'
                (ground (arith, enough)) (omega arith) in
            (
              (r.0 + 1, r.1, r.2),
              rw (room, e) refl,
              (
                omega arith,
                ap (λ k. queue w.pipe ++ take k (b ∷ bs)) (one_more r.0)
                    ∙ sym (append_assoc (queue w.pipe) (b ∷ []) _)
                    ∙ ap (λ q. q ++ take r.0 bs) (sym put)
                    ∙ order,
                valid,
                ground (arith, ends),
              ),
            )
      ]

  -- With enough fuel, `pipe_write` returns, while other tasks read. It answers -1, and writes
  -- nothing, just where it has bytes to write and no reader. Else the bytes that it has written
  -- stand behind those that were in the pipe, none is lost and none is out of order, and it has
  -- written all of them unless the last reader is gone.
  pub pipe_write-Written :
      (fuel : ℕ) (bytes : List ℕ) (w : World)
      → IsValid w.pipe
      → 2 * length bytes < fuel
      → (r : Option ℕ × List ℕ × World) × (pipe_write schedule fuel bytes w ≡ some r)
        × Answer bytes w r
  unfolding pipe_write
  pipe_write-Written fuel [] w ok enough =
      ((some 0, [], w), refl, (inl refl, (omega arith, append-nil _, ok, inl refl)))
  pipe_write-Written fuel (b ∷ bs) w ok enough = elim (Bool-cases (pipe_has_readers w)) [
    | inl readers ↦
        let (r, e, written) =
          write_bytes-Written fuel (b ∷ bs) w ok (ground (arith, enough)) (omega arith) in
        ((some r.0, r.1, r.2), rw (readers, e) refl, (inr readers, written))
    | inr shut ↦ ((none, [], w), rw shut refl, (shut, omega arith, refl, refl))
  ]
