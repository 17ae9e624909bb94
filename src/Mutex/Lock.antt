-- ===== src/Mutex/Lock.antt =====
-- kernel/mutex.cpp: whole calls on one mutex, and the bounds of a semaphore.
use sabaka_os.Common.{
  ℕ, suc, ◌+◌, ◌-◌, ◌≤◌, ◌≡◌, ◌≢◌, inl, inr, refl, Option, none, some, true, false, ltb, ◌==◌,
  if◌then◌else◌, arith, Bool-cases, List, [], ◌∷◌,
}
use sabaka_os.Mutex.{
  Mutex, mutex_trylock, lock_loop, mutex_lock, mutex_unlock, Semaphore, sem_wait, sem_signal,
}

-- `mutex_trylock` takes a free mutex, once: a second try fails until `mutex_unlock`, after which a
-- try succeeds again. A failed try leaves the owner.
pub mutex_trylock_once :
    (m : Mutex) (pid pid' : ℕ)
    → let (m1, first) = mutex_trylock m pid in
      let (m2, second) = mutex_trylock m1 pid' in
      (first ≡ (m.locked == 0))
      × (second ≡ false)
      × (m2.owner ≡ (if m.locked == 0 then pid else m.owner))
      × ((mutex_trylock (mutex_unlock m2) pid').1 ≡ true)
unfolding mutex_trylock mutex_unlock
mutex_trylock_once m pid pid' = ground arith

-- If the others leave the mutex free whenever the caller yields, `mutex_lock` returns within two
-- rounds of its loop, whoever held the mutex, and the caller owns it.
pub mutex_lock_returns :
    (others : Mutex → Mutex) (pid fuel : ℕ) (m : Mutex)
    → m.owner ≢ pid
    → ((k : Mutex) → (others k).locked ≡ 0)
    → (m' : Mutex) × (mutex_lock others pid (suc (suc fuel)) m ≡ some m')
      × (m'.locked ≡ 1)
      × (m'.owner ≡ pid)
unfolding mutex_lock lock_loop mutex_trylock
mutex_lock_returns others pid fuel m ne free =
    (record { locked = 1; owner = pid }, ground (arith, free (record m { locked = 1 })), refl, refl)

-- A call on a semaphore.
pub data SemCall : Type 0 where
  wait signal : SemCall

-- `none` where a wait would not return by itself.
unfoldable pub sem_run : Semaphore → List SemCall → Option Semaphore
sem_run s [] = some s
sem_run s (signal ∷ cs) = sem_run (sem_signal s) cs
sem_run s (wait ∷ cs) = elim (sem_wait (λ t. t) 1 s) [ none ↦ none | some t ↦ sem_run t cs ]

-- However it is waited on and signalled, the count of a semaphore stays between 0 and its maximum,
-- and the maximum stays as it is.
pub sem_run_bounds :
    (cs : List SemCall) (s t : Semaphore)
    → s.count ≤ s.max
    → sem_run s cs ≡ some t
    → (t.count ≤ t.max) × (t.max ≡ s.max)
unfolding sem_run sem_signal sem_wait
sem_run_bounds [] s t l e = ground arith
sem_run_bounds (signal ∷ cs) s t l e = elim (Bool-cases (ltb s.count s.max)) [
  | inl lt ↦ sem_run_bounds cs (record s { count = s.count + 1 }) t (ground arith) (rw lt at e)
  | inr ge ↦ sem_run_bounds cs s t l (rw ge at e)
]
sem_run_bounds (wait ∷ cs) s t l e = elim (Bool-cases (ltb 0 s.count)) [
  | inl lt ↦
      sem_run_bounds cs (record s { count = s.count - 1 }) t (ground arith) (rw (lt, sem_run) at e)
  | inr ge ↦ absurd (ground arith)
]
