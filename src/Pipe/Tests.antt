-- ===== src/Pipe/Tests.antt =====
-- The pipe at concrete inputs.
use arcade_os.Base.{
  ℕ, ◌≡◌, refl, sym, true, false, Option, some, List, [], ◌∷◌, replicate, length-replicate, arith,
}
use mathlib.Core.List.{append-nil}
use arcade_os.Scheduler.{ready}
use arcade_os.Pipe.{
  Holder, World, pipe_create, pipe_write, pipe_read, pipe_buf_size, has_end, pipe_has_readers,
  pipe_has_writers,
}
use arcade_os.Pipe.Order.{IsValid, Reads, Answer, pipe_write-Written}
use arcade_os.Pipe.Stream.{Writes, Got, pipe_read-Got}

-- A task that holds both ends of the pipe 7.
abbrev both_ends : Holder
both_ends = record {
  state = ready;
  fds =
      record { pipe_r = true; pipe_w = false; impl_data = 7 }
      ∷ record { pipe_r = false; pipe_w = true; impl_data = 7 }
      ∷ [];
}

abbrev fresh : World
fresh = record { pipe = pipe_create; self = 7; tasks = both_ends ∷ [] }

pipe_create-IsValid : IsValid pipe_create
unfolding pipe_create
pipe_create-IsValid = record {
  bytes = sym (length-replicate {A = ℕ} pipe_buf_size 0);
  inside = omega arith;
  at_end = refl;
  bound = omega arith;
}

-- The other tasks end at once: they leave the pipe alone.
abbrev all_end : World → List ℕ × World
all_end w = ([], record w { tasks = [] })

all_end-Reads : Reads all_end
unfolding pipe_has_readers has_end
all_end-Reads = record { in_order = λ w ok. (ok, refl); makes_room = λ w stuck. ground arith }

all_end-Writes : Writes all_end
unfolding pipe_has_writers has_end
all_end-Writes = record {
  in_order = λ w ok. (ok, sym (append-nil _));
  makes_data = λ w dry. ground arith;
}

pipe_write-Written_example :
    (r : Option ℕ × List ℕ × World) × (pipe_write all_end 5 (65 ∷ 66 ∷ []) fresh ≡ some r)
    × Answer (65 ∷ 66 ∷ []) fresh r
pipe_write-Written_example =
    pipe_write-Written all_end all_end-Reads 5 (65 ∷ 66 ∷ []) fresh pipe_create-IsValid
      (omega arith)

-- The pipe after that write.
abbrev two_bytes : World
two_bytes = record {
  pipe = record { buf = 65 ∷ 66 ∷ replicate 4094 0; read_pos = 0; write_pos = 2; count = 2 };
  self = 7;
  tasks = both_ends ∷ [];
}

two_bytes-IsValid : IsValid two_bytes.pipe
two_bytes-IsValid = record {
  bytes = omega (arith, length-replicate {A = ℕ} 4094 0);
  inside = omega arith;
  at_end = refl;
  bound = omega arith;
}

pipe_read-Got_example :
    (r : List ℕ × World) × (pipe_read all_end 2 1 two_bytes ≡ some r) × Got all_end 1 two_bytes r
pipe_read-Got_example =
    pipe_read-Got all_end all_end-Writes 2 1 two_bytes two_bytes-IsValid (omega arith)
