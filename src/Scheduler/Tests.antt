-- ===== src/Scheduler/Tests.antt =====
-- Examples for the scheduler of kernel/scheduler.cpp.
use sabaka_os.Common.{
  ◌<◌, find_index, ℕ, ◌+◌, ◌%◌, ◌≡◌, ◌≢◌, ◌⊎◌, refl, arith, true, false, none, some, List, [], ◌∷◌,
  ◌==◌, if◌then◌else◌,
}
use sabaka_os.Scheduler.State.{
  ProcessState, dead, ready, running, sleep, is_running, is_ready, Process, Scheduler, proc_max,
}
use sabaka_os.Scheduler.{is_dead, wake_all, choose, scheduler_yield}
use sabaka_os.Scheduler.Next.{wake_all-state, IsNext, NoneReady, choose_round_robin}
use sabaka_os.Scheduler.Switch.{IsValid, awake, scheduler_yield_runs, scheduler_yield-NoneReady}
use sabaka_os.Scheduler.{scheduler_init}
use sabaka_os.Scheduler.Calls.{Call, create, block, tick, run_calls, run_calls-IsValid}
use sabaka_os.Scheduler.Create.{process_create_user, Image, process_create}
use sabaka_os.Scheduler.Frame.{Created, Starts, process_create-Starts, both_created, pids_collide}

abbrev in_state : ProcessState → ℕ → Process
in_state st wake_at = record {
  pid = 0;
  name = λ i. 0;
  state = st;
  esp = 0;
  stack_base = 0;
  sleep_until = wake_at;
  priority = 1;
  ticks_total = 0;
  ticks_slice = 9;
  is_user = false;
  user_entry = 0;
  user_stack_virt = 0;
  brk_start = 0;
  brk_curr = 0;
}

-- Process 0 runs, process 1 is ready and process 2 sleeps until tick 50.
abbrev three : ℕ → Process
three i =
    if i == 0
    then in_state running 0
    else if i == 1
    then in_state ready 0
    else if i == 2
    then in_state sleep 50
    else in_state dead 0

abbrev with_procs : (ℕ → Process) → Scheduler
with_procs procs = record {
  procs = procs;
  proc_count = 3;
  current_idx = 0;
  initialized = true;
  next_pid = 1;
  next_user_pid = 1;
  tss_esp0 = 0;
  mem = λ i. 0;
}

three-IsValid : IsValid (with_procs three)
three-IsValid = record { in_table = omega arith; only_runs = λ i l r. ground arith }

abbrev image : Image
image = record { proc_entry = 1048576; proc_addr = λ i. 2097152 + i }

abbrev task : List ℕ
task = b't' ∷ []

-- A process is created, the first one blocks, and the clock ticks.
abbrev some_calls : List Call
some_calls = create image 7 8 task 1 (some 65536) ∷ block (some 0) ∷ tick 60 4096 ∷ []

run_calls-IsValid_example : IsValid (run_calls (scheduler_init (with_procs three)) some_calls)
run_calls-IsValid_example = run_calls-IsValid (with_procs three) some_calls

choose_round_robin_example :
    ((i : ℕ) × (choose three 0 ≡ (0 + i) % proc_max) × IsNext three 0 i)
    ⊎ (NoneReady three × (choose three 0 ≡ (if is_running (three 0).state then 0 else 0)))
choose_round_robin_example = choose_round_robin three 0 (omega arith)

ready_one : is_ready (wake_all 10 three 1).state ≡ true
ready_one = ground (arith, wake_all-state 10 three 1 (omega arith))

scheduler_yield_runs_example :
    let s' = scheduler_yield (with_procs three) 10 4096 in
    (i : ℕ) × IsNext (wake_all 10 three) 0 i
    × (s'.current_idx ≡ (0 + i) % proc_max)
    × (((s'.procs s'.current_idx).state ≡ running) ⊎ (s' ≡ awake (with_procs three) 10))
scheduler_yield_runs_example =
    scheduler_yield_runs (with_procs three) 10 4096 1 three-IsValid (omega arith) ready_one

-- Only process 0 is left, which has just gone to sleep.
abbrev asleep : ℕ → Process
asleep i = if i == 0 then in_state sleep 50 else in_state dead 0

asleep-IsValid : IsValid (with_procs asleep)
asleep-IsValid = record { in_table = omega arith; only_runs = λ i l r. ground arith }

asleep-NoneReady : NoneReady (wake_all 10 asleep)
asleep-NoneReady j l = ground (arith, wake_all-state 10 asleep j l)

asleep_stays : is_running (wake_all 10 asleep 0).state ≡ false
asleep_stays = ground (arith, wake_all-state 10 asleep 0 (omega arith))

scheduler_yield-NoneReady_example :
    scheduler_yield (with_procs asleep) 10 4096 ≡ awake (with_procs asleep) 10
scheduler_yield-NoneReady_example =
    scheduler_yield-NoneReady (with_procs asleep) 10 4096 asleep-IsValid asleep-NoneReady
      asleep_stays

process_create-Starts_example :
    let s = with_procs three in
    let (s', r) = process_create s image 7 8 task 1 (some 65536) in
    ((i : ℕ) × (r ≡ some i)
      × Created s s' i s.next_pid
      × Starts s'.mem (s'.procs i).esp 65536 image.proc_entry (image.proc_addr i) 7 8)
    ⊎ ((r ≡ none) × (s' ≡ s) × ((j : ℕ) → j < proc_max → is_dead (s.procs j).state ≡ false))
process_create-Starts_example = process_create-Starts (with_procs three) image 7 8 task 1 65536

first_slot : (process_create (with_procs three) image 7 8 task 1 (some 65536)).1 ≡ some 3
unfolding process_create find_index
first_slot = refl

second_slot : (both_created (with_procs three) image 7 8 9 task task 1 1 65536 131072).1 ≡ some 4
unfolding process_create process_create_user find_index
second_slot = refl

pids_collide_example :
    let s2 = (both_created (with_procs three) image 7 8 9 task task 1 1 65536 131072).0 in
    let i : ℕ = 3 in (i ≢ 4) × ((s2.procs i).pid ≡ (s2.procs 4).pid)
pids_collide_example =
    pids_collide (with_procs three) image 7 8 9 task task 1 1 65536 131072 3 4 refl first_slot
      second_slot
