-- ===== src/Mutex/Tests.antt =====
-- Examples for the mutexes and semaphores of kernel/mutex.cpp.
use sabaka_os.Common.{false, inr, ℕ, ◌+◌, ◌≡◌, inl, refl, arith, true, some, [], ◌∷◌, update}
use sabaka_os.Mutex.{sem_wait, sem_signal, Mutex, mutex_unlock, Semaphore}
use sabaka_os.Mutex.Threads.{
  System, Reach, start, later, thread, try, win, own, within, trying, won,
}
use sabaka_os.Mutex.Exclusion.{IsDistinct, mutual_exclusion, same_pid_breaks_exclusion, is_critical}
use sabaka_os.Mutex.Lock.{wait, signal, sem_run}

-- The process in slot `i` of the table has pid `i + 1`.
abbrev slot_pid : ℕ → ℕ
slot_pid i = i + 1

slot_pid-IsDistinct : IsDistinct 16 slot_pid
slot_pid-IsDistinct = record {
  injective = λ i j li lj e. omega arith;
  not_mark = λ i li e. omega arith;
}

-- Thread 5 has locked the mutex, and thread 2 waits for it.
abbrev contended : System
contended = record {
  mutex = record { locked = 1; owner = slot_pid 5 };
  pc =
      update (update (update (update (λ k. within 0) 5 (trying 0)) 5 (won 0)) 5 (within (0 + 1))) 2
        (trying 0);
}

contended-Reach : Reach false 16 slot_pid contended
contended-Reach =
    later
      (later
        (later (later start (thread 5 (omega arith) (try refl (inl refl))))
          (thread 5 (omega arith) (win refl)))
        (thread 5 (omega arith) own))
      (thread 2 (omega arith) (try refl (inr (λ e. omega arith))))

mutual_exclusion_example : let i : ℕ = 5 in i ≡ i
mutual_exclusion_example = mutual_exclusion slot_pid-IsDistinct contended-Reach 5 5 refl refl

same_pid_breaks_exclusion_example :
    (s : System) × Reach false 2 (λ i. 2) s
    × (is_critical (s.pc 0) ≡ true)
    × (is_critical (s.pc 1) ≡ true)
same_pid_breaks_exclusion_example =
    same_pid_breaks_exclusion 2 (λ i. 2) 0 1 (omega arith) (omega arith) (λ e. omega arith) refl

abbrev held : Mutex
held = record { locked = 1; owner = 3 }

unlocked : (k : Mutex) → (mutex_unlock k).locked ≡ 0
unfolding mutex_unlock
unlocked k = refl

abbrev two_of_three : Semaphore
two_of_three = record { count = 2; max = 3 }

ran :
    sem_run two_of_three (signal ∷ signal ∷ wait ∷ wait ∷ []) ≡ some (record { count = 1; max = 3 })
unfolding sem_run sem_signal sem_wait
ran = refl
