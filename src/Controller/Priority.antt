-- ===== src/Controller/Priority.antt =====
-- `setCurrentThreadHighPriority` and `handler` of VirtualForce_linux/controller.c, which the compiled
-- `main` does not use. The limits of the scheduler and the result of `waitpid` are parameters.
use virtual_force.Prelude.{
  ℕ, ◌+◌, ◌-◌, ◌*◌, ◌^◌, ◌/◌, ◌%◌, ◌≤◌, ◌≡◌, arith, false, Option, none, some, ◌==◌, if◌then◌else◌,
}

pub data Policy : Type 0 where
  sched_other : Policy
  sched_fifo : Policy

-- what `pthread_setschedparam` is called with
pub record SchedParam : Type 0 where
  pub policy : Policy
  pub priority : ℕ

-- The least and the greatest priority of a policy, none of them negative; nor is `p`.
module _ (sched_get_priority_max sched_get_priority_min : Policy → ℕ) where
  unfoldable pub set_current_thread_high_priority : ℕ → ℕ → SchedParam
  set_current_thread_high_priority value p =
      if value == 0 then record { policy = sched_other; priority = 0 } else record {
        policy = sched_fifo;
        priority = (sched_get_priority_max sched_fifo + sched_get_priority_min sched_fifo) / 2 + p;
      }

  -- A high priority is one of the policy, if `p` is at most half the width of its range.
  pub high_priority_in_range :
      (value p : ℕ)
      → (value == 0) ≡ false
      → sched_get_priority_min sched_fifo ≤ sched_get_priority_max sched_fifo
      → p ≤ (sched_get_priority_max sched_fifo - sched_get_priority_min sched_fifo) / 2
      → let s = set_current_thread_high_priority value p in
        (sched_get_priority_min sched_fifo ≤ s.priority)
        × (s.priority ≤ sched_get_priority_max sched_fifo)
  unfolding set_current_thread_high_priority
  high_priority_in_range value p h le small = ground arith

-- What `waitpid` gives: the child, and the status, which it leaves unset if no child has ended.
pub record Waited : Type 0 where
  pub pid : ℕ
  pub status : Option ℕ

-- What `handler` prints: the child and its exit code, if it ended by an exit.
pub data Printed : Type 0 where
  nothing : Printed
  exit_code : ℕ → ℕ → Printed

-- `WIFEXITED` and `WEXITSTATUS` read 7 and 8 bits of the status; `none` is the read of a status that is
-- not set.
unfoldable pub handler : Waited → Option Printed
handler w = elim w.status [
  | none ↦ none
  | some status ↦
      some (if status % 2 ^ 7 == 0 then exit_code w.pid (status / 2 ^ 8 % 2 ^ 8) else nothing)
]

-- A child that ends by `exit(code)` is printed with the low 8 bits of the code.
pub handler_exit :
    (pid code : ℕ)
    → handler (record { pid = pid; status = some (code % 2 ^ 8 * 2 ^ 8) })
      ≡ some (exit_code pid (code % 2 ^ 8))
unfolding handler
handler_exit pid code = ground arith
