-- ===== src/Scheduler/Calls.antt =====
-- kernel/scheduler.cpp: the calls that change the state of a process, in any order from
-- scheduler_init on.
use sabaka_os.Common.{
  for_range, for_range_inv, ℕ, ◌/◌, ◌<◌, ◌≡◌, inl, inr, refl, sym, ◌∙◌, ap, Bool, true, false, ◌||◌,
  not, leb, ◌==◌, if◌then◌else◌, arith, update, Option, none, some, Bool-cases, Option-cases, List,
  [], ◌∷◌,
}
use sabaka_os.Common.Words.{add32, sub32, mul32}
use sabaka_os.KString.Text.{CString}
use sabaka_os.Scheduler.State.{
  ProcessState, dead, ready, blocked, sleep, is_running, is_blocked, Process, Scheduler, proc_max,
  set_state,
}
use sabaka_os.Scheduler.{
  scheduler_init, alloc_proc, process_block, process_unblock, reschedule, scheduler_yield,
  time_slice, scheduler_tick, process_exit, process_sleep, stopped,
}
use sabaka_os.Scheduler.Create.{Image, process_create, process_create_user}
use sabaka_os.Scheduler.Switch.{IsValid, if-IsValid, reschedule-IsValid}

-- To take the processor from the current process cannot make another one run.
set_current-IsValid :
    (s : Scheduler) (p : Process) (count : ℕ)
    → IsValid s
    → IsValid (record s { procs = update s.procs s.current_idx p; proc_count = count })
set_current-IsValid s p count v = record {
  in_table = v.in_table;
  only_runs = λ i b r. elim (Bool-cases (s.current_idx == i)) [
    | inl e ↦ ground arith
    | inr ne ↦ v.only_runs i b (ground arith)
  ];
}

-- The calls of scheduler.cpp that change the state of a process. Those that create one have what
-- the heap and the paging answer.
pub data Call : Type 0 where
  init : Call
  create : (img : Image) (func arg : ℕ) (name : CString) (priority : ℕ) (stack : Option ℕ) → Call
  create_user :
      (img : Image) (entry : ℕ) (name : CString) (priority : ℕ) (kstack : Option ℕ) (mapped : Bool)
      → Call
  tick : (now esp : ℕ) → Call
  yield' : (now esp : ℕ) → Call
  exit : (now esp : ℕ) → Call
  sleep_for : (ms frequency now esp : ℕ) → Call
  block : Option ℕ → Call
  unblock : Option ℕ → Call

pub run_call : Scheduler → Call → Scheduler
run_call s init = scheduler_init s
run_call s (create img func arg name priority stack) =
    (process_create s img func arg name priority stack).0
run_call s (create_user img entry name priority kstack mapped) =
    (process_create_user s img entry name priority kstack mapped).0
run_call s (tick now esp) = scheduler_tick s now esp
run_call s (yield' now esp) = scheduler_yield s now esp
run_call s (exit now esp) = process_exit s now esp
run_call s (sleep_for ms frequency now esp) = process_sleep s ms frequency now esp
run_call s (block p) = process_block s p
run_call s (unblock p) = process_unblock s p

pub run_calls : Scheduler → List Call → Scheduler
run_calls s [] = s
run_calls s (c ∷ cs) = run_calls (run_call s c) cs

scheduler_tick-IsValid :
    (s : Scheduler) (now esp : ℕ) → IsValid s → IsValid (scheduler_tick s now esp)
unfolding scheduler_tick
scheduler_tick-IsValid s now esp v =
    let p = s.procs s.current_idx in
    let p' : Process = record p {
      ticks_total = add32 p.ticks_total 1;
      ticks_slice = add32 p.ticks_slice 1;
    } in
    let s' : Scheduler = record s { procs = update s.procs s.current_idx p' } in
    let v' : IsValid s' = set_current-IsValid s p' s.proc_count v in
    if-IsValid (not s.initialized) s
      (if leb time_slice p'.ticks_slice || stopped p'.state then reschedule s' now esp else s') v
      (if-IsValid (leb time_slice p'.ticks_slice || stopped p'.state) (reschedule s' now esp) s'
        (reschedule-IsValid s' now esp v') v')

change_state-IsValid :
    (s : Scheduler) (i : ℕ) (st : ProcessState)
    → is_running st ≡ false
    → IsValid s
    → IsValid (record s { procs = set_state s.procs i st })
change_state-IsValid s i st off v = record {
  in_table = v.in_table;
  only_runs = λ j b r. elim (Bool-cases (i == j)) [
    | inl e ↦ absurd (ground arith)
    | inr ne ↦ v.only_runs j b (ground arith)
  ];
}

-- A process that does not run is put into a slot.
put-IsValid :
    (s s' : Scheduler) (i : ℕ) (p : Process)
    → s'.procs ≡ update s.procs i p
    → s'.current_idx ≡ s.current_idx
    → is_running p.state ≡ false
    → IsValid s
    → IsValid s'
put-IsValid s s' i p e c off v = record {
  in_table = rw c v.in_table;
  only_runs = λ j b r. kept j b (ap (λ (q : ℕ → Process). is_running (q j).state) (sym e) ∙ r);
}
  where
    kept :
        (j : ℕ) → j < proc_max → is_running (update s.procs i p j).state ≡ true → j ≡ s'.current_idx
    kept j b r = elim (Bool-cases (i == j)) [
      | inl q ↦ absurd (ground arith)
      | inr ne ↦ v.only_runs j b (ground arith) ∙ sym c
    ]

process_create-IsValid :
    (s : Scheduler) (img : Image) (func arg : ℕ) (name : CString) (priority : ℕ) (stack : Option ℕ)
    → IsValid s
    → IsValid (process_create s img func arg name priority stack).0
unfolding process_create
process_create-IsValid s img func arg name priority stack v =
    elim (Option-cases (alloc_proc s.procs)) [
      | inl e ↦ rw (e, process_create) v
      | inr (i, e) ↦ elim (Option-cases stack) [
        | inl n ↦ rw (e, n, process_create) (put-IsValid s _ i _ refl refl refl v)
        | inr (base, n) ↦ rw (e, n, process_create) (put-IsValid s _ i _ refl refl refl v)
      ]
    ]

process_create_user-IsValid :
    (s : Scheduler) (img : Image) (entry : ℕ) (name : CString) (priority : ℕ) (kstack : Option ℕ)
    (mapped : Bool)
    → IsValid s
    → IsValid (process_create_user s img entry name priority kstack mapped).0
unfolding process_create_user
process_create_user-IsValid s img entry name priority none mapped v =
    elim (Option-cases (alloc_proc s.procs)) [
      | inl e ↦ rw (e, process_create_user) v
      | inr (i, e) ↦ rw (e, process_create_user) (put-IsValid s _ i _ refl refl refl v)
    ]
process_create_user-IsValid s img entry name priority (some base) true v =
    elim (Option-cases (alloc_proc s.procs)) [
      | inl e ↦ rw (e, process_create_user) v
      | inr (i, e) ↦ rw (e, process_create_user) (put-IsValid s _ i _ refl refl refl v)
    ]
process_create_user-IsValid s img entry name priority (some base) false v =
    elim (Option-cases (alloc_proc s.procs)) [
      | inl e ↦ rw (e, process_create_user) v
      | inr (i, e) ↦ rw (e, process_create_user) (put-IsValid s _ i _ refl refl refl v)
    ]

-- The loop of scheduler_init leaves every process dead.
cleared-dead :
    (procs : ℕ → Process) (i : ℕ)
    → i < proc_max
    → (for_range 0 proc_max (λ j procs'. set_state procs' j dead) procs i).state ≡ dead
cleared-dead procs i l =
    for_range_inv (λ k procs'. (j : ℕ) → j < k → (procs' j).state ≡ dead)
      (λ j procs'. set_state procs' j dead) 0 proc_max (λ k procs' a b h j c. ground (arith, h j))
      proc_max 0 procs refl (omega arith) (λ j c. absurd (omega arith)) i l

scheduler_init-IsValid : (s : Scheduler) → IsValid (scheduler_init s)
unfolding scheduler_init
scheduler_init-IsValid s = record {
  in_table = omega arith;
  only_runs = λ i b r. ground (arith, cleared-dead s.procs i b);
}

-- Every call keeps it so that at most the current process runs.
run_call-IsValid : (s : Scheduler) (c : Call) → IsValid s → IsValid (run_call s c)
unfolding run_call scheduler_yield process_exit process_sleep process_block process_unblock
run_call-IsValid s init v = scheduler_init-IsValid s
run_call-IsValid s (create img func arg name priority stack) v =
    process_create-IsValid s img func arg name priority stack v
run_call-IsValid s (create_user img entry name priority kstack mapped) v =
    process_create_user-IsValid s img entry name priority kstack mapped v
run_call-IsValid s (tick now esp) v = scheduler_tick-IsValid s now esp v
run_call-IsValid s (yield' now esp) v = reschedule-IsValid s now esp v
run_call-IsValid s (exit now esp) v = reschedule-IsValid _ now esp (
    set_current-IsValid s (record (s.procs s.current_idx) { state = dead }) (sub32 s.proc_count 1)
      v)
run_call-IsValid s (sleep_for ms frequency now esp) v = reschedule-IsValid _ now esp (
    set_current-IsValid s
      (record (s.procs s.current_idx) {
        state = sleep;
        sleep_until = add32 now (mul32 ms frequency / 1000);
      })
      s.proc_count v)
run_call-IsValid s (block none) v = v
run_call-IsValid s (block (some i)) v = change_state-IsValid s i blocked refl v
run_call-IsValid s (unblock none) v = v
run_call-IsValid s (unblock (some i)) v = elim (Bool-cases (is_blocked (s.procs i).state)) [
  | inl e ↦ rw e (change_state-IsValid s i ready refl v)
  | inr e ↦ rw e v
]

run_calls-keep : (s : Scheduler) (cs : List Call) → IsValid s → IsValid (run_calls s cs)
unfolding run_calls
run_calls-keep s [] v = v
run_calls-keep s (c ∷ cs) v = run_calls-keep (run_call s c) cs (run_call-IsValid s c v)

-- After scheduler_init and any calls that create, block, wake, put to sleep, end or switch
-- processes, in any order, the current index lies in the table and of its processes at most the
-- current one runs.
pub run_calls-IsValid : (s : Scheduler) (cs : List Call) → IsValid (run_calls (scheduler_init s) cs)
run_calls-IsValid s cs = run_calls-keep (scheduler_init s) cs (scheduler_init-IsValid s)
