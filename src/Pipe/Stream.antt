-- ===== src/Pipe/Stream.antt =====
-- `pipe_read`: what a reader gets while other tasks write.
use mathlib.Core.List.{append_assoc, append-nil}
use arcade_os.Base.{
  ℕ, zero, suc, ◌≤◌, ◌<◌, ◌≡◌, ◌∙◌, ◌⊎◌, inl, inr, refl, sym, ap, Bool, true, false, ◌&&◌, some,
  List, [], ◌++◌, ◌==◌, if◌then◌else◌, take, drop, length, length-take, arith, Bool-cases,
}
use arcade_os.Ring.{contents, length-contents}
use arcade_os.Pipe.{
  pipe_buf_size, PipeBuf, World, pipe_has_writers, take_bytes, await_data, pipe_read,
}
use arcade_os.Pipe.Order.{IsValid, queue, take_bytes-Taken}

-- The reader finds nothing, and some task can still write.
abbrev pub is_dry : World → Bool
is_dry w = (w.pipe.count == 0) && pipe_has_writers w

-- What is asked of the other tasks, which run in `schedule`: they put bytes behind those in the
-- pipe and take none out, and when the reader runs again after it has found the pipe empty, there
-- is a byte or no writer is left.
pub record Writes (schedule : World → List ℕ × World) : Type 0 where
  pub in_order :
      (w : World)
      → IsValid w.pipe
      → IsValid (schedule w).1.pipe × (queue (schedule w).1.pipe ≡ queue w.pipe ++ (schedule w).0)
  pub makes_data : (w : World) → is_dry w ≡ true → is_dry (schedule w).1 ≡ false

module _ (schedule : World → List ℕ × World) where
  -- The other tasks run `k` times: what they put in, and the state that they leave.
  pub rounds : ℕ → World → List ℕ × World
  rounds zero w = ([], w)
  rounds (suc k) w = let (put, w') = rounds k (schedule w).1 in ((schedule w).0 ++ put, w')

  -- The caller waits `k` times, each time because it finds nothing and some task can still write.
  abbrev pub Dry : ℕ → World → Type 0
  Dry k w = (j : ℕ) → j < k → is_dry (rounds j w).1 ≡ true

  -- After the wait: what the others have put in stands behind the rest, and there is a byte to read,
  -- or there is none and no writer.
  abbrev Waited : World → Bool × World → Type 0
  Waited w (found, w') =
      (k : ℕ) × Dry k w
      × (w' ≡ (rounds k w).1)
      × IsValid w'.pipe
      × (queue w'.pipe ≡ queue w.pipe ++ (rounds k w).0)
      × ((if found then 0 else w'.pipe.count) ≡ 0)
      × (if found then 0 < w'.pipe.count else pipe_has_writers w' ≡ false)

  -- The reader has waited `k` times, each time because it asks for bytes and finds none, while some
  -- task can still write. Of the bytes that were in the pipe and those that the others have put in
  -- meanwhile, it gets the first `size`, and the rest is in the pipe. It gets at least one, unless it
  -- asks for none or the pipe is empty and no writer is left.
  abbrev pub Got : ℕ → World → List ℕ × World → Type 0
  Got size w (bytes, w') =
      (k : ℕ) × Dry k w
      × ((0 < k) → 0 < size)
      × IsValid w'.pipe
      × (bytes ≡ take size (queue w.pipe ++ (rounds k w).0))
      × (queue w'.pipe ≡ drop size (queue w.pipe ++ (rounds k w).0))
      × (w'.tasks ≡ (rounds k w).1.tasks)
      × ((0 < length bytes) ⊎ (size ≡ 0) ⊎ ((queue w'.pipe ≡ []) × (pipe_has_writers w' ≡ false)))

module _ (schedule : World → List ℕ × World) (writes : Writes schedule) where
  Dry-first :
      (k : ℕ) (w : World) → is_dry w ≡ true → Dry schedule k (schedule w).1 → Dry schedule (suc k) w
  unfolding rounds
  Dry-first k w dry later zero inside = dry
  Dry-first k w dry later (suc j) inside = later j (omega (arith, inside))

  await_data-Waited :
      (fuel : ℕ) (w : World)
      → IsValid w.pipe
      → (if is_dry w then 1 else 0) < fuel
      → (r : Bool × World) × (await_data schedule fuel w ≡ some r) × Waited schedule w r
  unfolding await_data rounds
  await_data-Waited zero w ok enough = absurd (omega arith)
  await_data-Waited (suc fuel) w ok enough = elim (Bool-cases (w.pipe.count == 0)) [
    | inl empty ↦ elim (Bool-cases (pipe_has_writers w)) [
      | inl writers ↦
          let (ok', same) = writes.in_order w ok in
          let (r, e, (k, dry, after, valid, more, none_left, last)) =
            await_data-Waited fuel (schedule w).1 ok'
              (ground (arith, enough, empty, writers, writes.makes_data w)) in
          (
            r,
            rw (empty, writers) e,
            (
              suc k,
              Dry-first k w (ground (arith, empty, writers)) dry,
              after,
              valid,
              more
                  ∙ ap (λ q. q ++ (rounds schedule k (schedule w).1).0) same
                  ∙ append_assoc (queue w.pipe) _ _,
              none_left,
              last,
            ),
          )
      | inr shut ↦ (
        (false, w),
        rw (empty, shut) refl,
        (0, (λ j h. elim h [ ]), refl, ok, sym (append-nil _), ground (arith, empty), shut),
      )
    ]
    | inr some_byte ↦ (
      (true, w),
      rw some_byte refl,
      (0, (λ j h. elim h [ ]), refl, ok, sym (append-nil _), refl, ground (arith, some_byte)),
    )
  ]

  -- With fuel for two looks at the pipe, `pipe_read` returns, while other tasks write. It waits only
  -- where it asks for bytes, the pipe is empty and some task can still write. What it gets are the
  -- first `size` of the bytes that were in the pipe and of those that the others have put in
  -- meanwhile, the rest stays in the pipe, and it gets at least one unless none was asked for or the
  -- stream has ended.
  pub pipe_read-Got :
      (fuel size : ℕ) (w : World)
      → IsValid w.pipe
      → 2 ≤ fuel
      → (r : List ℕ × World) × (pipe_read schedule fuel size w ≡ some r) × Got schedule size w r
  unfolding pipe_read rounds
  pipe_read-Got fuel zero w ok enough = (
    ([], w),
    refl,
    (0, (λ j h. elim h [ ]), (λ h. elim h [ ]), ok, refl, sym (append-nil _), refl, inr (inl refl)),
  )
  pipe_read-Got fuel (suc size) w ok enough =
      by_wait (await_data-Waited fuel w ok (ground (arith, enough)))
    where
      some_given :
          (w' : World) {bytes : List ℕ}
          → bytes ≡ take (suc size) (queue w'.pipe)
          → 0 < w'.pipe.count
          → 0 < length bytes
      some_given w' given some_byte = omega (
        arith,
        ap length given,
        length-take (suc size) (queue w'.pipe),
        length-contents 0 pipe_buf_size w'.pipe.buf w'.pipe.read_pos w'.pipe.count,
      )

      empty_queue : (p : PipeBuf) → p.count ≡ 0 → queue p ≡ []
      empty_queue p e = ap (contents 0 pipe_buf_size p.buf p.read_pos) e

      by_wait :
          (r : Bool × World) × (await_data schedule fuel w ≡ some r) × Waited schedule w r
          → (r : List ℕ × World) × (pipe_read schedule fuel (suc size) w ≡ some r)
            × Got schedule (suc size) w r
      by_wait ((false, w'), e, (k, dry, after, valid, more, none_left, shut)) =
          let gone = empty_queue w'.pipe none_left in
          (
            ([], w'),
            rw (pipe_read, e) refl,
            (
              k,
              dry,
              (λ h. omega arith),
              valid,
              ap (take (suc size)) (sym gone ∙ more),
              gone ∙ ap (drop (suc size)) (sym gone ∙ more),
              ap (λ v. v.tasks) after,
              inr (inr (gone, shut)),
            ),
          )
      by_wait ((true, w'), e, (k, dry, after, valid, more, none_left, some_byte)) =
          let (given, left, valid') = take_bytes-Taken (suc size) w'.pipe valid in
          (
            (
              (take_bytes (suc size) w'.pipe).0,
              record w' { pipe = (take_bytes (suc size) w'.pipe).1 },
            ),
            rw (pipe_read, e) refl,
            (
              k,
              dry,
              (λ h. omega arith),
              valid',
              given ∙ ap (take (suc size)) more,
              left ∙ ap (drop (suc size)) more,
              ap (λ v. v.tasks) after,
              inl (some_given w' given some_byte),
            ),
          )
