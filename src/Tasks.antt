-- ===== src/Tasks.antt =====
-- src/task.c: the task table's slots, and the stack that each task has from the kernel heap.
mod Slots
pub mod Create
mod Tests
use Prim.Native.Nat.{bit_or}
use arcade_os.Base.{
  ℕ, zero, suc, ◌+◌, ◌%◌, ◌^◌, Bool, true, false, not, ◌&&◌, Option, none, some, List, [], ◌∷◌,
  ◌++◌, ltb, leb, ◌==◌, if◌then◌else◌, set, length,
}
use mathlib.Core.Option
use arcade_os.Heap
use arcade_os.Heap.{Heap, kmalloc, kfree}
use arcade_os.Scheduler.{TaskState, running, ready, blocked, dead, Task, Sched, task, no_task}

-- The scheduler's state, `next_task_id` and the heap.
pub record Kernel : Type 0 where
  pub sched : Sched
  pub next_task_id : ℕ
  pub heap : Heap

abbrev pub max_tasks : ℕ
max_tasks = 16

abbrev pub task_stack_size : ℕ
task_stack_size = 8192

unfoldable pub is_dead : TaskState → Bool
is_dead dead = true
is_dead _ = false

-- The search for a dead slot, from the slot `i` on.
pub find_dead : List Task → ℕ → Option ℕ
unfolding is_dead
find_dead [] i = none
find_dead (t ∷ ts) i = if is_dead t.state then some i else find_dead ts (i + 1)

-- Slot 0 is never recycled.
pub dead_slot : List Task → Option ℕ
dead_slot [] = none
dead_slot (t ∷ ts) = find_dead ts 1

-- A dead task's stack goes back to the heap. `none`: its base was not the heap's.
pub release_stack : Task → Heap → Option Heap
release_stack t h = if t.stack_base == 0 then some h else kfree t.stack_base h

-- The slot for the new task, zeroed: a dead one, whose stack is released first, or a new one.
-- The inner `none` stands for a full table.
pub claim_slot : Kernel → Option (Option (ℕ × Kernel))
unfolding release_stack
claim_slot k = elim (dead_slot k.sched.tasks) [
  | some i ↦
      Option.map
        (λ h. some (
          i,
          record k { sched = record k.sched { tasks = set k.sched.tasks i no_task }; heap = h },
        ))
        (release_stack (task k.sched.tasks i) k.heap)
  | none ↦
      if leb max_tasks (length k.sched.tasks)
      then some none
      else some (
          some (
            length k.sched.tasks,
            record k { sched = record k.sched { tasks = k.sched.tasks ++ no_task ∷ [] } },
          ))
]

-- The rest of `create_kernel_thread`, for the slot `i`: its fields are set, then its stack is
-- allocated. The answer is the slot, or `none` for -1.
pub fill_slot : ℕ → Kernel → Option ℕ × Kernel
fill_slot i k =
    let (stack, h) = kmalloc task_stack_size k.heap in
    let made = record no_task {
      id = k.next_task_id;
      state = ready;
      cr3 = k.sched.cr3;
      stack_base = stack;
      kernel_stack_top = if stack == 0 then 0 else stack + task_stack_size;
    } in
    (
      if stack == 0 then none else some i,
      record {
        sched = record k.sched { tasks = set k.sched.tasks i made };
        next_task_id = (k.next_task_id + 1) % 2 ^ 32;
        heap = h;
      },
    )

pub create_kernel_thread : Kernel → Option (Option ℕ × Kernel)
unfolding claim_slot fill_slot
create_kernel_thread k =
    Option.map (λ slot. elim slot [ none ↦ (none, k) | some (i, k') ↦ fill_slot i k' ])
      (claim_slot k)

-- The delivery loop of `task_kill_foreground`: the first task with the id that is not dead.
pub deliver : ℕ → ℕ → List Task → List Task
unfolding is_dead
deliver pid sig [] = []
deliver pid sig (t ∷ ts) =
    if t.id == pid && not (is_dead t.state)
    then record t { pending_signals = bit_or t.pending_signals (2 ^ sig) } ∷ ts
    else t ∷ deliver pid sig ts

abbrev is_blocked : TaskState → Bool
is_blocked blocked = true
is_blocked _ = false

-- The foreground task is the one that task 0 waits for.
pub kill_foreground : ℕ → List Task → List Task
kill_foreground sig ts =
    if leb (length ts) 1
    then ts
    else if is_blocked (task ts 0).state && ltb 0 (task ts 0).wait_pid
    then deliver (task ts 0).wait_pid sig ts
    else ts
