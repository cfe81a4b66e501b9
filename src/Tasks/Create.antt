-- ===== src/Tasks/Create.antt =====
-- What `create_kernel_thread` does to the table and the heap.
use arcade_os.Base.{
  ℕ, zero, suc, ◌+◌, ◌%◌, ◌^◌, subst, ◌∙◌, ap, sym, ◌≤◌, ◌<◌, ◌≡◌, ◌≢◌, ◌⊎◌, refl, Option, none,
  some, List, [], ◌∷◌, ◌++◌, leb, ◌==◌, if◌then◌else◌, set, length, length-set, length-append,
  get_or-set, arith, Bool-cases, inl, inr, ltb, ◌&&◌, Option-cases,
}
use mathlib.Core.Option.{some-injective}
use arcade_os.Heap.{Heap, kmalloc, kfree}
use arcade_os.Scheduler.{ready, Task, task, no_task}
use arcade_os.Tasks.{
  Kernel, max_tasks, task_stack_size, dead_slot, release_stack, claim_slot, fill_slot,
  create_kernel_thread,
}
use arcade_os.Tasks.Slots.{FirstDead, NoneDead, Sought, dead_slot-Sought}

-- The heap after the stack of a dead task has gone back to it, if it has one.
abbrev pub Released : Task → Heap → Heap → Type 0
Released t h h' =
    ((t.stack_base ≡ 0) × (h' ≡ h)) ⊎ ((t.stack_base ≢ 0) × (kfree t.stack_base h ≡ some h'))

release_stack-Released : (t : Task) (h h' : Heap) → release_stack t h ≡ some h' → Released t h h'
unfolding release_stack
release_stack-Released t h h' e = elim (Bool-cases (t.stack_base == 0)) [
  | inl no_stack ↦ inl (
    ground (arith, no_stack),
    sym (
        some-injective h h'
          (sym (ap (λ b. if b then some h else kfree t.stack_base h) no_stack) ∙ e)),
  )
  | inr stack ↦
      inr (
        ground (arith, stack),
        sym (ap (λ b. if b then some h else kfree t.stack_base h) stack) ∙ e,
      )
]

-- The slot for a new task: the first dead one but slot 0, whose stack goes back to the heap, or else
-- a new one at the end of the table, if there is room.
abbrev pub Slot : Kernel → ℕ → Heap → ℕ → Type 0
Slot k i h size =
    (FirstDead k.sched.tasks 1 i
      × Released (task k.sched.tasks i) k.heap h
      × (size ≡ length k.sched.tasks))
    ⊎ (NoneDead k.sched.tasks 1
        × (i ≡ length k.sched.tasks)
        × (i < max_tasks)
        × (h ≡ k.heap)
        × (size ≡ suc (length k.sched.tasks)))

-- The slot is in the table, and the other slots are as before.
abbrev Claimed : Kernel → Option (ℕ × Kernel) → Type 0
Claimed k none = (max_tasks ≤ length k.sched.tasks) × NoneDead k.sched.tasks 1
Claimed k (some (i, k')) =
    Slot k i k'.heap (length k'.sched.tasks)
    × (i < length k'.sched.tasks)
    × (k'.next_task_id ≡ k.next_task_id)
    × ((j : ℕ) → j ≢ i → task k'.sched.tasks j ≡ task k.sched.tasks j)

-- The stack of every dead task goes back to the heap: none has a base that is not the heap's.
abbrev pub Releasable : Kernel → Type 0
Releasable k =
    (i : ℕ)
    → dead_slot k.sched.tasks ≡ some i
    → (h : Heap) × (release_stack (task k.sched.tasks i) k.heap ≡ some h)

task-append : (ts : List Task) (j : ℕ) → task (ts ++ no_task ∷ []) j ≡ task ts j
task-append [] zero = refl
task-append [] (suc j) = refl
task-append (t ∷ ts) zero = refl
task-append (t ∷ ts) (suc j) = task-append ts j

sought : (ts : List Task) (found : Option ℕ) → dead_slot ts ≡ found → Sought ts found
sought ts found e = subst (Sought ts) e (dead_slot-Sought ts)

claim_slot-Claimed :
    (k : Kernel)
    → 0 < length k.sched.tasks
    → Releasable k
    → (c : Option (ℕ × Kernel)) × (claim_slot k ≡ some c) × Claimed k c
unfolding claim_slot
claim_slot-Claimed k some_task releasable = elim (Option-cases (dead_slot k.sched.tasks)) [
  | inl full ↦ elim (Bool-cases (leb max_tasks (length k.sched.tasks))) [
    | inl e ↦
        (none, rw (claim_slot, full, e) refl, (ground (arith, e), sought k.sched.tasks none full))
    | inr e ↦ (
      some (
        length k.sched.tasks,
        record k { sched = record k.sched { tasks = k.sched.tasks ++ no_task ∷ [] } },
      ),
      rw (claim_slot, full, e) refl,
      (
        inr (
          sought k.sched.tasks none full,
          refl,
          ground (arith, e),
          refl,
          omega (arith, length-append k.sched.tasks (no_task ∷ [])),
        ),
        omega (arith, length-append k.sched.tasks (no_task ∷ [])),
        refl,
        λ j other. task-append k.sched.tasks j,
      ),
    )
  ]
  | inr (i, found) ↦
      let first = sought k.sched.tasks (some i) found in
      (
        some (
          i,
          record k {
            sched = record k.sched { tasks = set k.sched.tasks i no_task };
            heap = (releasable i found).0;
          },
        ),
        rw (claim_slot, found, (releasable i found).1) refl,
        (
          inl (
            first,
            release_stack-Released (task k.sched.tasks i) k.heap (releasable i found).0
                (releasable i found).1,
            length-set k.sched.tasks i no_task,
          ),
          omega (arith, first.1, length-set k.sched.tasks i no_task),
          refl,
          λ j other. get_or-set k.sched.tasks i j no_task no_task ∙ ground (arith, other),
        ),
      )
]

-- A new task is in the slot: ready, with the next id, on a stack that the heap has given out, and the
-- other slots are as before. Where the heap has no room for the stack, the answer is -1, and yet the
-- slot is left ready.
abbrev pub Filled : ℕ → Heap → Kernel → Option ℕ × Kernel → Type 0
Filled i h k (answer, k') =
    ((task k'.sched.tasks i).state ≡ ready)
    × ((task k'.sched.tasks i).id ≡ k.next_task_id)
    × ((task k'.sched.tasks i).stack_base ≡ (kmalloc task_stack_size h).0)
    × ((task k'.sched.tasks i).kernel_stack_top ≡ (
        if (kmalloc task_stack_size h).0 == 0
        then 0
        else (kmalloc task_stack_size h).0 + task_stack_size))
    × (k'.heap ≡ (kmalloc task_stack_size h).1)
    × (k'.next_task_id ≡ (k.next_task_id + 1) % 2 ^ 32)
    × (answer ≡ (if (kmalloc task_stack_size h).0 == 0 then none else some i))
    × ((j : ℕ) → j ≢ i → task k'.sched.tasks j ≡ task k.sched.tasks j)

fill_slot-Filled :
    (i : ℕ) (k : Kernel) → i < length k.sched.tasks → Filled i k.heap k (fill_slot i k)
unfolding fill_slot
fill_slot-Filled i k inside = (
  ground (arith, at i),
  ground (arith, at i),
  ground (arith, at i),
  ground (arith, at i),
  refl,
  refl,
  refl,
  λ j ne. ground (arith, at j),
)
  where
    made : Task
    made = record no_task {
      id = k.next_task_id;
      state = ready;
      cr3 = k.sched.cr3;
      stack_base = (kmalloc task_stack_size k.heap).0;
      kernel_stack_top =
          if (kmalloc task_stack_size k.heap).0 == 0
          then 0
          else (kmalloc task_stack_size k.heap).0 + task_stack_size;
    }

    at :
        (j : ℕ)
        → task (set k.sched.tasks i made) j
          ≡ (if i == j && ltb i (length k.sched.tasks) then made else task k.sched.tasks j)
    at j = get_or-set k.sched.tasks i j made no_task

-- Every outcome of `create_kernel_thread`: the table is full and nothing changes, or a slot has
-- been claimed and filled; `h` is the heap after the stack of a dead task has gone back.
abbrev pub Creates : Kernel → Option ℕ × Kernel → Type 0
Creates k r =
    ((max_tasks ≤ length k.sched.tasks) × NoneDead k.sched.tasks 1 × (r.0 ≡ none) × (r.1 ≡ k))
    ⊎ ((i : ℕ) × (h : Heap) × Slot k i h (length r.1.sched.tasks) × Filled i h k r)

length-fill_slot :
    (i : ℕ) (k : Kernel) → length (fill_slot i k).1.sched.tasks ≡ length k.sched.tasks
unfolding fill_slot
length-fill_slot i k = length-set k.sched.tasks i _

-- Where the stacks of the dead are the heap's, `create_kernel_thread` always answers. It takes the
-- first dead slot but slot 0, and gives that task's stack back to the heap, or else a new slot at the
-- end of the table; the new task is ready, with the next id and a stack from the heap, and the other
-- slots are as before. The answer is -1 if 16 tasks or more are in the table and none but the first is
-- dead, and then nothing changes, or if the heap is full, and then the new task stays ready without a
-- stack.
pub create_kernel_thread-Creates :
    (k : Kernel)
    → 0 < length k.sched.tasks
    → Releasable k
    → (r : Option ℕ × Kernel) × (create_kernel_thread k ≡ some r) × Creates k r
unfolding create_kernel_thread
create_kernel_thread-Creates k some_task releasable =
    let (c, e, claimed) = claim_slot-Claimed k some_task releasable in
    (elim c [ none ↦ (none, k) | some (i, k') ↦ fill_slot i k' ], rw e refl, by_slot c claimed)
  where
    by_slot :
        (slot : Option (ℕ × Kernel))
        → Claimed k slot
        → Creates k (elim slot [ none ↦ (none, k) | some (i, k') ↦ fill_slot i k' ])
    by_slot none (full, alive) = inl (full, alive, refl, refl)
    by_slot (some (i, c)) (slot, inside, same, others) =
        let (is_ready, id, base, top, heap, next, answer, kept) = fill_slot-Filled i c inside in
        inr (
          i,
          c.heap,
          subst (Slot k i c.heap) (sym (length-fill_slot i c)) slot,
          (
            is_ready,
            id ∙ same,
            base,
            top,
            heap,
            next ∙ ap (λ n. (n + 1) % 2 ^ 32) same,
            answer,
            λ j other. kept j other ∙ others j other,
          ),
        )
