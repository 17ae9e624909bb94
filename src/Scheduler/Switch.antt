-- ===== src/Scheduler/Switch.antt =====
-- kernel/scheduler.cpp: what switching keeps. At most the current process runs, and its index lies
-- in the table.
use sabaka_os.Common.{
  ℕ, ℕ_discrete, ◌+◌, ◌%◌, ◌<◌, ◌≡◌, ◌≢◌, ◌⊎◌, inl, inr, refl, sym, ◌∙◌, ap, Bool, true, false,
  ◌==◌, if◌then◌else◌, arith, subst,
}
use sabaka_os.Scheduler.State.{running, is_ready, is_running, Process, Scheduler, proc_max}
use sabaka_os.Scheduler.{
  switch_to, wake_all, choose, find_next, do_switch, reschedule, scheduler_yield,
}
use sabaka_os.Scheduler.Next.{wake_all-state, IsNext, NoneReady, choose_round_robin, choose-lt}

-- Of the processes in the table only the one at `current` may run.
abbrev pub OnlyRuns : (ℕ → Process) → ℕ → Type 0
OnlyRuns procs current = (i : ℕ) → i < proc_max → is_running (procs i).state ≡ true → i ≡ current

pub record IsValid (s : Scheduler) : Type 0 where
  pub in_table : s.current_idx < proc_max
  pub only_runs : OnlyRuns s.procs s.current_idx

OnlyRuns-wake_all :
    (now : ℕ) (procs : ℕ → Process) (current : ℕ)
    → OnlyRuns procs current
    → OnlyRuns (wake_all now procs) current
OnlyRuns-wake_all now procs current v i l r = v i l (ground (arith, wake_all-state now procs i l))

pub if-IsValid : (b : Bool) (s t : Scheduler) → IsValid s → IsValid t → IsValid (if b then s else t)
if-IsValid true s t v w = v
if-IsValid false s t v w = w

switch_to-IsValid :
    (s : Scheduler) (next esp : ℕ) → IsValid s → next < proc_max → IsValid (switch_to s next esp)
unfolding switch_to
switch_to-IsValid s next esp v l = record {
  in_table = l;
  only_runs = λ i b r. ground (arith, v.only_runs i b);
}

do_switch-IsValid :
    (s : Scheduler) (next esp : ℕ) → IsValid s → next < proc_max → IsValid (do_switch s next esp)
unfolding do_switch
do_switch-IsValid s next esp v l =
    if-IsValid (next == s.current_idx) s (switch_to s next esp) v (switch_to-IsValid s next esp v l)

-- The scheduler once the sleepers whose time has come are awake.
abbrev pub awake : Scheduler → ℕ → Scheduler
awake s now = record s { procs = wake_all now s.procs }

awake-IsValid : (s : Scheduler) (now : ℕ) → IsValid s → IsValid (awake s now)
awake-IsValid s now v = record {
  in_table = v.in_table;
  only_runs = OnlyRuns-wake_all now s.procs s.current_idx v.only_runs;
}

pub reschedule-IsValid : (s : Scheduler) (now esp : ℕ) → IsValid s → IsValid (reschedule s now esp)
unfolding reschedule find_next
reschedule-IsValid s now esp v =
    let next = choose (wake_all now s.procs) s.current_idx in
    if-IsValid (next == s.current_idx) (awake s now) (do_switch (awake s now) next esp)
      (awake-IsValid s now v)
      (do_switch-IsValid (awake s now) next esp (awake-IsValid s now v)
        (choose-lt (wake_all now s.procs) s.current_idx v.in_table))

switch_to_runs :
    (s : Scheduler) (next esp : ℕ) → ((switch_to s next esp).procs next).state ≡ running
unfolding switch_to
switch_to_runs s next esp = ground arith

current-switch_to : (s : Scheduler) (next esp : ℕ) → (switch_to s next esp).current_idx ≡ next
unfolding switch_to
current-switch_to s next esp = refl

reschedule_same :
    (s : Scheduler) (now esp : ℕ)
    → choose (wake_all now s.procs) s.current_idx ≡ s.current_idx
    → reschedule s now esp ≡ awake s now
unfolding reschedule find_next
reschedule_same s now esp e =
    let t : (choose (wake_all now s.procs) s.current_idx == s.current_idx) ≡ true = ground arith in
    if_true (choose (wake_all now s.procs) s.current_idx == s.current_idx) (awake s now) _ t
  where
    if_true : (b : Bool) (x y : Scheduler) → b ≡ true → (if b then x else y) ≡ x
    if_true true x y e' = refl
    if_true false x y e' = absurd (cc)

reschedule_other :
    (s : Scheduler) (now esp : ℕ)
    → choose (wake_all now s.procs) s.current_idx ≢ s.current_idx
    → reschedule s now esp
      ≡ switch_to (awake s now) (choose (wake_all now s.procs) s.current_idx) esp
unfolding reschedule find_next do_switch
reschedule_other s now esp e =
    let next = choose (wake_all now s.procs) s.current_idx in
    let t : (next == s.current_idx) ≡ false = ground arith in
    if_false (next == s.current_idx) (awake s now) (switch_to (awake s now) next esp) t
  where
    if_false :
        (b : Bool) (x y : Scheduler) → b ≡ false → (if b then x else (if b then x else y)) ≡ y
    if_false true x y e' = absurd (cc)
    if_false false x y e' = refl

-- A `scheduler_yield` where, once the sleepers are awake, some process is ready goes on with the
-- first ready process after the current one: that process is the current one then, and it runs,
-- unless it is the one that yields.
pub scheduler_yield_runs :
    (s : Scheduler) (now esp j : ℕ)
    → IsValid s
    → j < proc_max
    → is_ready (wake_all now s.procs j).state ≡ true
    → let s' = scheduler_yield s now esp in
      (i : ℕ) × IsNext (wake_all now s.procs) s.current_idx i
      × (s'.current_idx ≡ (s.current_idx + i) % proc_max)
      × (((s'.procs s'.current_idx).state ≡ running) ⊎ (s' ≡ awake s now))
unfolding scheduler_yield
scheduler_yield_runs s now esp j v l r =
    elim (choose_round_robin (wake_all now s.procs) s.current_idx v.in_table) [
      | inr (n, e) ↦ absurd (let x = n j l in cc)
      | inl (i, e, nx) ↦
          elim (ℕ_discrete (choose (wake_all now s.procs) s.current_idx) s.current_idx) [
            | yes same ↦ (
              i,
              nx,
              ap (λ t. t.current_idx) (reschedule_same s now esp same) ∙ sym same ∙ e,
              inr (reschedule_same s now esp same),
            )
            | no other ↦
                let next = choose (wake_all now s.procs) s.current_idx in
                let sw = reschedule_other s now esp other in
                (
                  i,
                  nx,
                  ap (λ t. t.current_idx) sw ∙ current-switch_to (awake s now) next esp ∙ e,
                  inl (
                      subst (λ t. (t.procs t.current_idx).state ≡ running) (sym sw)
                        (ap (λ k. ((switch_to (awake s now) next esp).procs k).state)
                            (current-switch_to (awake s now) next esp)
                          ∙ switch_to_runs (awake s now) next esp)),
                )
          ]
    ]

-- Where no process is ready, process 0 does not run and the sleepers stay asleep,
-- `scheduler_yield` returns to the process that called it, whatever the state of that process.
pub scheduler_yield-NoneReady :
    (s : Scheduler) (now esp : ℕ)
    → IsValid s
    → NoneReady (wake_all now s.procs)
    → is_running (wake_all now s.procs 0).state ≡ false
    → scheduler_yield s now esp ≡ awake s now
unfolding scheduler_yield
scheduler_yield-NoneReady s now esp v n z =
    elim (choose_round_robin (wake_all now s.procs) s.current_idx v.in_table) [
      | inl (i, e, nx) ↦
          let x = n ((s.current_idx + i) % proc_max) (omega arith) in
          let y = nx.is_next in absurd (cc)
      | inr (m, e) ↦ reschedule_same s now esp (e ∙ rw z)
    ]
