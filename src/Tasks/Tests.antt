-- ===== src/Tasks/Tests.antt =====
-- The task table at concrete inputs.
use arcade_os.Base.{ℕ, zero, suc, ◌≡◌, refl, true, ◌∷◌, [], Option, some, arith}
use arcade_os.Scheduler.{running, no_task}
use arcade_os.Tasks.{Kernel, create_kernel_thread, dead_slot, find_dead, release_stack, is_dead}
use arcade_os.Tasks.Create.{Creates, Releasable, create_kernel_thread-Creates}

-- Slot 1 is dead, and its stack has been released already.
abbrev kernel : Kernel
kernel = record {
  sched = record {
    tasks = record no_task { id = 0; state = running } ∷ record no_task { id = 1 } ∷ [];
    current = 0;
    enabled = true;
    tick_count = 0;
    rsp0 = 0;
    cr3 = 4096;
  };
  next_task_id = 2;
  heap = record { total = 65536; blocks = record { addr = 4096; size = 65512; free = true } ∷ [] };
}

dead_slot_one : dead_slot kernel.sched.tasks ≡ some 1
unfolding dead_slot find_dead is_dead
dead_slot_one = refl

kernel-Releasable : Releasable kernel
unfolding release_stack
kernel-Releasable zero found = (kernel.heap, refl)
kernel-Releasable (suc zero) found = (kernel.heap, refl)
kernel-Releasable (suc (suc i)) found = (kernel.heap, refl)

create_kernel_thread-Creates_example :
    (r : Option ℕ × Kernel) × (create_kernel_thread kernel ≡ some r) × Creates kernel r
create_kernel_thread-Creates_example =
    create_kernel_thread-Creates kernel (omega arith) kernel-Releasable
