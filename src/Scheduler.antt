-- ===== src/Scheduler.antt =====
-- src/scheduler.c, with the parts of src/syscall.c that end, block and yield a task. The task
-- table `tasks[0 .. num_tasks)` of src/task.c is a list; of a task control block the fields that
-- these functions read or write are kept.
pub mod Rounds
pub mod Progress
pub mod Waiters
pub mod Lost
mod Deaths
pub mod Candidates
pub mod Fair
mod Tests
use Prim.Native.Nat.{bit_and}
use arcade_os.Base.{
  ℕ, zero, suc, ◌+◌, ◌-◌, ◌%◌, ◌^◌, Bool, true, false, not, ◌&&◌, ◌||◌, Option, none, some, List,
  [], ◌∷◌, map, ltb, leb, ◌==◌, if◌then◌else◌, get_or, set, length,
}

pub data TaskState : Type 0 where
  running ready blocked dead : TaskState

pub record Task : Type 0 where
  pub id : ℕ
  pub state : TaskState
  pub wait_pid : ℕ
  pub cr3 : ℕ
  pub stack_base : ℕ
  pub kernel_stack_top : ℕ
  pub pending_signals : ℕ
  pub ignored_signals : ℕ

-- The statics of scheduler.c, the TSS stack pointer and the CR3 register. `current` is
-- `current_task_index`, which `current_task` follows.
pub record Sched : Type 0 where
  pub tasks : List Task
  pub current : ℕ
  pub enabled : Bool
  pub tick_count : ℕ
  pub rsp0 : ℕ
  pub cr3 : ℕ

-- What a slot of the table holds after `memset`, but for the state: no slot below `num_tasks` is
-- ever read as this one.
abbrev pub no_task : Task
no_task = record {
  id = 0;
  state = dead;
  wait_pid = 0;
  cr3 = 0;
  stack_base = 0;
  kernel_stack_top = 0;
  pending_signals = 0;
  ignored_signals = 0;
}

abbrev pub task : List Task → ℕ → Task
task ts i = get_or ts i no_task

abbrev pub runnable : TaskState → Bool
runnable running = true
runnable ready = true
runnable _ = false

-- The search of `schedule`, with the rounds left and `i`; `next` is `next_index` so far.
pub pick : List Task → ℕ → ℕ → ℕ → ℕ → ℕ
pick ts old zero i next = next
pick ts old (suc n) i next =
    let found = (old + 1 + i) % length ts in
    let further = pick ts old n (i + 1) found in
    if runnable (task ts found).state then found else further

-- The old task, if it was running, becomes ready.
pub demote : TaskState → TaskState
demote running = ready
demote s = s

-- `pending_signals & ~ignored_signals & ((1 << SIGINT) | (1 << SIGKILL))`, in 32 bits.
pub deadly : Task → Bool
deadly t = not (bit_and (bit_and t.pending_signals (2 ^ 32 - 1 - t.ignored_signals)) 0x204 == 0)

-- A task that is blocked on the task `pid` becomes ready.
pub wake : ℕ → Task → Task
wake pid t = elim t.state [
  | blocked ↦ if t.wait_pid == pid then record t { state = ready; wait_pid = 0 } else t
  | _ ↦ t
]

-- The task at `i` dies of a signal, and its waiters wake up.
pub kill : List Task → ℕ → List Task
unfolding wake
kill ts i =
    map (wake (task ts i).id) (set ts i (record (task ts i) { state = dead; pending_signals = 0 }))

-- The switch to the task at `i`.
pub switch_to : Sched → List Task → ℕ → Sched
switch_to s ts i =
    let t = task ts i in
    record s {
      tasks = set ts i (record t { state = running });
      current = i;
      rsp0 = if t.kernel_stack_top == 0 then s.rsp0 else t.kernel_stack_top;
      cr3 = if t.cr3 == 0 || t.cr3 == s.cr3 then s.cr3 else t.cr3;
    }

-- `next_index` after the search.
pub next_index : Sched → ℕ
next_index s = pick s.tasks s.current (length s.tasks) 0 s.current

-- The table with the old task marked ready.
pub demote_current : Sched → List Task
unfolding demote
demote_current s =
    let old = task s.tasks s.current in
    set s.tasks s.current (record old { state = demote old.state })

-- The early returns: no switch is possible, or none is needed.
pub keeps_cpu : Sched → Bool
keeps_cpu s = not s.enabled || leb (length s.tasks) 1 || next_index s == s.current

-- `schedule` calls itself after it has killed a task; `none` means that the fuel ran out.
pub schedule : ℕ → Sched → Option Sched
schedule zero s = none
schedule (suc fuel) s =
    let again = schedule fuel (record s { tasks = kill (demote_current s) (next_index s) }) in
    if keeps_cpu s
    then some s
    else if deadly (task (demote_current s) (next_index s))
    then again
    else some (switch_to s (demote_current s) (next_index s))

abbrev pub sched_quantum_ms : ℕ
sched_quantum_ms = 20

-- `scheduler_tick`, from the timer interrupt.
pub tick : ℕ → Sched → Option Sched
tick fuel s =
    if not s.enabled || leb (length s.tasks) 1
    then some s
    else if ltb ((s.tick_count + 1) % 2 ^ 32) sched_quantum_ms
    then some (record s { tick_count = (s.tick_count + 1) % 2 ^ 32 })
    else schedule fuel (record s { tick_count = 0 })

-- SYS_EXIT up to its first `schedule`: the current task dies and its waiters wake up.
pub exit : Sched → Sched
unfolding wake
exit s = record s {
  tasks =
      map (wake (task s.tasks s.current).id)
        (set s.tasks s.current (record (task s.tasks s.current) { state = dead }));
}

-- SYS_WAIT up to its `schedule`.
pub wait : ℕ → Sched → Sched
wait pid s = record s {
  tasks =
      set s.tasks s.current (record (task s.tasks s.current) { state = blocked; wait_pid = pid });
}
