-- ===== src/Pipe.antt =====
-- src/pipe.c: the ring buffer of a pipe, the search for open ends, and the two blocking calls.
pub mod Order
pub mod Stream
mod Tests
use arcade_os.Base.{
  ℕ, zero, suc, ◌+◌, ◌-◌, ◌%◌, Bool, true, false, not, ◌&&◌, ◌||◌, Option, none, some, List, [],
  ◌∷◌, ◌++◌, ltb, ◌==◌, if◌then◌else◌, get_or, set, replicate,
}
use arcade_os.Scheduler.{TaskState, running, ready, blocked, dead}

abbrev pub pipe_buf_size : ℕ
pipe_buf_size = 4096

pub record PipeBuf : Type 0 where
  pub buf : List ℕ
  pub read_pos : ℕ
  pub write_pos : ℕ
  pub count : ℕ

-- A node in a descriptor table: its two pipe flags, and which pipe it belongs to.
pub record Node : Type 0 where
  pub pipe_r : Bool
  pub pipe_w : Bool
  pub impl_data : ℕ

-- What the two calls see of a task: its state and its descriptor table, empty slots left out.
pub record Holder : Type 0 where
  pub state : TaskState
  pub fds : List Node

-- The pipe `self` and the task table.
pub record World : Type 0 where
  pub pipe : PipeBuf
  pub self : ℕ
  pub tasks : List Holder

pub is_dead : TaskState → Bool
is_dead dead = true
is_dead _ = false

pub any_node : (Node → Bool) → ℕ → List Node → Bool
any_node flag self [] = false
any_node flag self (n ∷ ns) = flag n && n.impl_data == self || any_node flag self ns

-- Some task that is not dead holds an end of the pipe.
pub has_end : (Node → Bool) → ℕ → List Holder → Bool
unfolding is_dead any_node
has_end flag self [] = false
has_end flag self (t ∷ ts) =
    not (is_dead t.state) && any_node flag self t.fds || has_end flag self ts

pub pipe_has_writers : World → Bool
unfolding has_end
pipe_has_writers w = has_end (λ n. n.pipe_w) w.self w.tasks

pub pipe_has_readers : World → Bool
unfolding has_end
pipe_has_readers w = has_end (λ n. n.pipe_r) w.self w.tasks

-- What `pipe_create` leaves in the buffer.
pub pipe_create : PipeBuf
pipe_create = record { buf = replicate pipe_buf_size 0; read_pos = 0; write_pos = 0; count = 0 }

-- The copy loop of `pipe_read`: at most `size` bytes.
pub take_bytes : ℕ → PipeBuf → List ℕ × PipeBuf
take_bytes zero p = ([], p)
take_bytes (suc size) p =
    let (rest, p') =
      take_bytes size
        (record p { read_pos = (p.read_pos + 1) % pipe_buf_size; count = p.count - 1 }) in
    if p.count == 0 then ([], p) else (get_or p.buf p.read_pos 0 ∷ rest, p')

-- One byte of `pipe_write`.
pub put_byte : ℕ → PipeBuf → PipeBuf
put_byte b p = record {
  buf = set p.buf p.write_pos b;
  read_pos = p.read_pos;
  write_pos = (p.write_pos + 1) % pipe_buf_size;
  count = p.count + 1;
}

-- The other tasks, which run while the caller is in `schedule`, until it runs again: the bytes
-- that they take out of the pipe and those that they put in, and the state that they leave.
module _ (schedule : World → List ℕ × World) where
  -- The waiting loop of `pipe_read`: false stands for the return of 0 at the end of the stream.
  pub await_data : ℕ → World → Option (Bool × World)
  await_data zero w = none
  await_data (suc fuel) w =
      let again = await_data fuel (schedule w).1 in
      if not (w.pipe.count == 0)
      then some (true, w)
      else if pipe_has_writers w
      then again
      else some (false, w)

  pub pipe_read : ℕ → ℕ → World → Option (List ℕ × World)
  pipe_read fuel zero w = some ([], w)
  pipe_read fuel (suc size) w = elim (await_data fuel w) [
    | none ↦ none
    | some (false, w') ↦ some ([], w')
    | some (true, w') ↦
        some (
          (take_bytes (suc size) w'.pipe).0,
          record w' { pipe = (take_bytes (suc size) w'.pipe).1 },
        )
  ]

  -- The loop of `pipe_write`: the bytes that were written, those that the other tasks took out
  -- meanwhile, and the state.
  pub write_bytes : ℕ → List ℕ → World → Option (ℕ × List ℕ × World)
  unfolding put_byte
  write_bytes zero bytes w = none
  write_bytes (suc fuel) [] w = some (0, [], w)
  write_bytes (suc fuel) (b ∷ bs) w =
      let again = write_bytes fuel (b ∷ bs) (schedule w).1 in
      let further = write_bytes fuel bs (record w { pipe = put_byte b w.pipe }) in
      if w.pipe.count == pipe_buf_size
      then (if pipe_has_readers w
          then elim again [
            | none ↦ none
            | some (n, taken, w') ↦ some (n, (schedule w).0 ++ taken, w')
          ]
          else some (0, [], w))
      else elim further [ none ↦ none | some (n, taken, w') ↦ some (n + 1, taken, w') ]

  -- `none` within the answer stands for -1. The empty write returns 0 at once.
  pub pipe_write : ℕ → List ℕ → World → Option (Option ℕ × List ℕ × World)
  pipe_write fuel [] w = some (some 0, [], w)
  pipe_write fuel (b ∷ bs) w =
      if not (pipe_has_readers w) then some (none, [], w) else elim (write_bytes fuel (b ∷ bs) w) [
        | none ↦ none
        | some (n, taken, w') ↦ some (some n, taken, w')
      ]
