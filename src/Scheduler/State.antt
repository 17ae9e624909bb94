-- ===== src/Scheduler/State.antt =====
-- kernel/process.h: process states, processes, and the state that kernel/scheduler.cpp keeps.
use sabaka_os.Common.{ℕ, Bool, true, false, update}

pub data ProcessState : Type 0 where
  dead ready running blocked sleep : ProcessState

abbrev pub is_dead : ProcessState → Bool
is_dead dead = true
is_dead _ = false

abbrev pub is_ready : ProcessState → Bool
is_ready ready = true
is_ready _ = false

abbrev pub is_running : ProcessState → Bool
is_running running = true
is_running _ = false

abbrev pub is_blocked : ProcessState → Bool
is_blocked blocked = true
is_blocked _ = false

abbrev pub is_sleep : ProcessState → Bool
is_sleep sleep = true
is_sleep _ = false

abbrev pub proc_max : ℕ
proc_max = 16

abbrev pub proc_stack_size : ℕ
proc_stack_size = 8192

abbrev pub proc_name_len : ℕ
proc_name_len = 32

pub record Process : Type 0 where
  pub pid : ℕ
  pub name : ℕ → ℕ
  pub state : ProcessState
  pub esp : ℕ
  pub stack_base : ℕ
  pub sleep_until : ℕ
  pub priority : ℕ
  pub ticks_total : ℕ
  pub ticks_slice : ℕ
  pub is_user : Bool
  pub user_entry : ℕ
  pub user_stack_virt : ℕ
  pub brk_start : ℕ
  pub brk_curr : ℕ

-- The static variables of scheduler.cpp. `process_create` and `process_create_user` have a counter
-- `next_pid` each. `tss_esp0` is what `tss_set_kernel_stack` was given last, and `mem` the words of
-- memory, by address, in which the stacks of new processes are set up.
pub record Scheduler : Type 0 where
  pub procs : ℕ → Process
  pub proc_count : ℕ
  pub current_idx : ℕ
  pub initialized : Bool
  pub next_pid : ℕ
  pub next_user_pid : ℕ
  pub tss_esp0 : ℕ
  pub mem : ℕ → ℕ

-- `procs[i].state = st`
abbrev pub set_state : (ℕ → Process) → ℕ → ProcessState → (ℕ → Process)
set_state procs i st = update procs i (record (procs i) { state = st })
