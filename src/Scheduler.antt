-- ===== src/Scheduler.antt =====
-- kernel/process.h, kernel/scheduler.h and kernel/scheduler.cpp: the process table and the
-- round-robin scheduler. `pit_ticks()` is the argument `now`. A switch to another stack is
-- `context_switch`: what it saves for the process that it leaves is the argument `esp`.
pub mod State
pub mod Next
pub mod Switch
pub mod Calls
pub mod Create
pub mod Frame
mod Tests
use sabaka_os.Common.{
  [], ◌∷◌, List, ℕ, zero, suc, ◌+◌, ◌-◌, ◌*◌, ◌/◌, ◌%◌, ◌<◌, Option, none, some, Bool, true, false,
  ◌&&◌, ◌||◌, not, ltb, leb, ◌==◌, if◌then◌else◌, update, find_index, for_range,
}
use sabaka_os.Common.Int.{ℤ, pos, negsuc}
use sabaka_os.Common.Words.{u32, add32, sub32, mul32}
use sabaka_os.KString.Text.{kstrcpy}
use State.{
  ProcessState, dead, ready, running, blocked, sleep, is_dead, is_ready, is_running, is_blocked,
  is_sleep,
}
use State.{Process, Scheduler, proc_max, proc_stack_size, set_state}

-- `alloc_proc`
abbrev pub alloc_proc : (ℕ → Process) → Option ℕ
alloc_proc procs = find_index (λ i. is_dead (procs i).state) 0 proc_max

-- "kernel"
abbrev pub kernel_name : List ℕ
kernel_name = b'k' ∷ b'e' ∷ b'r' ∷ b'n' ∷ b'e' ∷ b'l' ∷ []

unfoldable pub scheduler_init : Scheduler → Scheduler
scheduler_init s =
    let cleared = for_range 0 proc_max (λ i procs. set_state procs i dead) s.procs in
    record s {
      procs = update cleared 0 (record (cleared 0) {
        pid = 0;
        name = kstrcpy (cleared 0).name 0 kernel_name;
        state = running;
        priority = 1;
        ticks_total = 0;
        ticks_slice = 0;
        stack_base = 0;
        esp = 0;
      });
      proc_count = 1;
      current_idx = 0;
      initialized = true;
    }

-- `none` is a null pointer.
unfoldable pub process_block : Scheduler → Option ℕ → Scheduler
process_block s none = s
process_block s (some i) = record s { procs = set_state s.procs i blocked }

unfoldable pub process_unblock : Scheduler → Option ℕ → Scheduler
process_unblock s none = s
process_unblock s (some i) =
    if is_blocked (s.procs i).state then record s { procs = set_state s.procs i ready } else s

-- The calls hand out the slot of a process; `none` is a null pointer.
unfoldable pub scheduler_current : Scheduler → ℕ
scheduler_current s = s.current_idx

unfoldable pub scheduler_get : ℤ → Option ℕ
scheduler_get (pos i) = if ltb i proc_max then some i else none
scheduler_get (negsuc k) = none

unfoldable pub scheduler_count : Scheduler → ℕ
scheduler_count s = s.proc_count

-- One round of the loop of `find_next` that wakes the sleepers.
abbrev pub wake : ℕ → ℕ → (ℕ → Process) → (ℕ → Process)
wake now i procs =
    if is_sleep (procs i).state && leb (procs i).sleep_until now
    then set_state procs i ready
    else procs

unfoldable pub wake_all : ℕ → (ℕ → Process) → (ℕ → Process)
wake_all now procs = for_range 0 proc_max (wake now) procs

-- The search of `find_next`, from the process after the current one all the way round to it.
unfoldable pub choose : (ℕ → Process) → ℕ → ℕ
choose procs current =
    elim (find_index (λ i. is_ready (procs ((current + i) % proc_max)).state) 1 proc_max) [
      | some i ↦ (current + i) % proc_max
      | none ↦ if is_ready (procs 0).state || is_running (procs 0).state then 0 else current
    ]

unfoldable pub find_next : Scheduler → ℕ → Scheduler × ℕ
find_next s now =
    let procs' = wake_all now s.procs in (record s { procs = procs' }, choose procs' s.current_idx)

-- `do_switch` past its first test.
unfoldable pub switch_to : Scheduler → ℕ → ℕ → Scheduler
switch_to s next_idx esp =
    let prev = s.procs s.current_idx in
    let left =
      update s.procs s.current_idx
        (record prev { state = if is_running prev.state then ready else prev.state; esp = esp }) in
    record s {
      procs = update left next_idx (record (left next_idx) { state = running; ticks_slice = 0 });
      current_idx = next_idx;
      tss_esp0 = add32 (s.procs next_idx).stack_base proc_stack_size;
    }

unfoldable pub do_switch : Scheduler → ℕ → ℕ → Scheduler
do_switch s next_idx esp = if next_idx == s.current_idx then s else switch_to s next_idx esp

-- `int next = find_next(); if (next != current_idx) do_switch(next);`
unfoldable pub reschedule : Scheduler → ℕ → ℕ → Scheduler
reschedule s now esp =
    let (s', next) = find_next s now in if next == s.current_idx then s' else do_switch s' next esp

unfoldable pub scheduler_yield : Scheduler → ℕ → ℕ → Scheduler
scheduler_yield s now esp = reschedule s now esp

abbrev pub time_slice : ℕ
time_slice = 10

-- Whether the process may not go on.
abbrev pub stopped : ProcessState → Bool
stopped st = is_dead st || is_sleep st || is_blocked st

unfoldable pub scheduler_tick : Scheduler → ℕ → ℕ → Scheduler
scheduler_tick s now esp =
    let p = s.procs s.current_idx in
    let p' = record p {
      ticks_total = add32 p.ticks_total 1;
      ticks_slice = add32 p.ticks_slice 1;
    } in
    let s' = record s { procs = update s.procs s.current_idx p' } in
    if not s.initialized
    then s
    else if leb time_slice p'.ticks_slice || stopped p'.state
    then reschedule s' now esp
    else s'

-- `process_exit` up to the switch; control does not come back to the process.
unfoldable pub process_exit : Scheduler → ℕ → ℕ → Scheduler
process_exit s now esp =
    scheduler_yield
      (record s { procs = set_state s.procs s.current_idx dead; proc_count = sub32 s.proc_count 1 })
      now esp

-- `frequency` is `pit_get_frequency()`.
unfoldable pub process_sleep : Scheduler → ℕ → ℕ → ℕ → ℕ → Scheduler
process_sleep s ms frequency now esp =
    scheduler_yield
      (record s {
        procs = update s.procs s.current_idx (record (s.procs s.current_idx) {
          state = sleep;
          sleep_until = add32 now (mul32 ms frequency / 1000);
        });
      })
      now esp
