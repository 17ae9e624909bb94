-- ===== src/Mutex/Exclusion.antt =====
-- kernel/mutex.cpp: mutual exclusion, and what it rests on: pids that differ, and locks that are not
-- nested.
use sabaka_os.Common.{
  ℕ, ◌+◌, ◌-◌, ◌<◌, ◌≡◌, ◌≢◌, inl, refl, sym, Bool, true, false, update, arith, subst, ltb,
}
use sabaka_os.Mutex.{Mutex, no_owner}
use sabaka_os.Mutex.Threads.{
  Pc, within, trying, won, leaving, Move, already, try, lose, trylock, give_up, win, own, disown,
  release, System, thread, Reach, start, later,
}

-- In a critical section: `mutex_lock` has returned and its `mutex_unlock` has not begun.
abbrev pub is_critical : Pc → Bool
is_critical (within k) = ltb 0 k
is_critical (trying k) = ltb 0 k
is_critical (won k) = ltb 0 k
is_critical (leaving k) = ltb 0 k

-- Past a winning exchange, and not yet past the release.
abbrev inside : Pc → Bool
inside (within k) = ltb 0 k
inside (trying k) = false
inside (won k) = true
inside (leaving k) = true

-- Between calls, with a lock.
abbrev is_within : Pc → Bool
is_within (within k) = ltb 0 k
is_within (trying k) = false
is_within (won k) = false
is_within (leaving k) = false

-- The locks around the one that the thread is about.
abbrev depth : Pc → ℕ
depth (within k) = k - 1
depth (trying k) = k
depth (won k) = k
depth (leaving k) = k

-- The threads have pids of their own, none of which is the mark for no owner.
pub record IsDistinct (n : ℕ) (pid : ℕ → ℕ) : Type 0 where
  pub injective : (i j : ℕ) → i < n → j < n → pid i ≡ pid j → i ≡ j
  pub not_mark : (i : ℕ) → i < n → pid i ≢ no_owner

record Inv (n : ℕ) (pid : ℕ → ℕ) (m : Mutex) (pc : ℕ → Pc) : Type 0 where
  held : (i : ℕ) → inside (pc i) ≡ true → m.locked ≢ 0
  alone : (i j : ℕ) → inside (pc i) ≡ true → inside (pc j) ≡ true → i ≡ j
  owned : (i : ℕ) → i < n → m.owner ≡ pid i → is_within (pc i) ≡ true
  flat : (i : ℕ) → depth (pc i) ≡ 0

module _ {n : ℕ} {pid : ℕ → ℕ} (d : IsDistinct n pid) {m : Mutex} {pc : ℕ → Pc} (v : Inv n pid m pc)
    (i : ℕ) (l : i < n) where
  Move-flat :
      {p p' : Pc} {m' : Mutex}
      → pc i ≡ p
      → Move false (pid i) m p m' p'
      → (j : ℕ) → depth (update pc i p' j) ≡ 0
  Move-flat e (already k l' o) j = ground (arith, v.flat j)
  Move-flat e (try k t) j = ground (arith, v.flat j)
  Move-flat e (trylock k) j = ground (arith, v.flat j)
  Move-flat e (lose l') j = ground (arith, v.flat i, v.flat j)
  Move-flat e (give_up l') j = ground (arith, v.flat i, v.flat j)
  Move-flat e (win l') j = ground (arith, v.flat i, v.flat j)
  Move-flat e own j = ground (arith, v.flat i, v.flat j)
  Move-flat e disown j = ground (arith, v.flat i, v.flat j)
  Move-flat e release j = ground (arith, v.flat i, v.flat j)

  Move-held :
      {p p' : Pc} {m' : Mutex}
      → pc i ≡ p
      → Move false (pid i) m p m' p'
      → (j : ℕ) → inside (update pc i p' j) ≡ true
      → m'.locked ≢ 0
  Move-held e (already k l' o) j h = l'
  Move-held e (try k t) j h = ground (arith, v.held j)
  Move-held e (trylock k) j h = ground (arith, v.held j)
  Move-held e (lose l') j h = omega arith
  Move-held e (give_up l') j h = omega arith
  Move-held e (win l') j h = omega arith
  Move-held e own j h = ground (arith, v.held j, v.held i)
  Move-held e disown j h = ground (arith, v.held j, v.held i)
  Move-held e release j h = ground (arith, v.alone i j, v.flat i)

  Move-alone :
      {p p' : Pc} {m' : Mutex}
      → pc i ≡ p
      → Move false (pid i) m p m' p'
      → (a b : ℕ) → inside (update pc i p' a) ≡ true
      → inside (update pc i p' b) ≡ true
      → a ≡ b
  Move-alone e (already k l' o) a b ha hb = absurd (ground (arith, v.owned i l o))
  Move-alone e (try k t) a b ha hb = ground (arith, v.alone a b)
  Move-alone e (trylock k) a b ha hb = ground (arith, v.alone a b)
  Move-alone e (lose l') a b ha hb = ground (arith, v.alone a b)
  Move-alone e (give_up l') a b ha hb = ground (arith, v.alone a b, v.flat i)
  Move-alone e (win l') a b ha hb = ground (arith, v.alone a b, v.held a, v.held b)
  Move-alone e own a b ha hb = ground (arith, v.alone a b, v.alone i a, v.alone i b)
  Move-alone e disown a b ha hb = ground (arith, v.alone a b, v.alone i a, v.alone i b)
  Move-alone e release a b ha hb = ground (arith, v.alone a b, v.alone i a, v.alone i b)

  Move-owned :
      {p p' : Pc} {m' : Mutex}
      → pc i ≡ p
      → Move false (pid i) m p m' p'
      → (j : ℕ) → j < n
      → m'.owner ≡ pid j
      → is_within (update pc i p' j) ≡ true
  Move-owned e (already k l' o) j lj h = ground (arith, v.owned j)
  Move-owned e (try k t) j lj h = ground (arith, v.owned j)
  Move-owned e (trylock k) j lj h = ground (arith, v.owned j)
  Move-owned e (lose l') j lj h = ground (arith, v.owned j)
  Move-owned e (give_up l') j lj h = ground (arith, v.owned j)
  Move-owned e (win l') j lj h = ground (arith, v.owned j)
  Move-owned e own j lj h = ground (arith, d.injective i j l lj h)
  Move-owned e disown j lj h = absurd (d.not_mark j lj (sym h))
  Move-owned e release j lj h = ground (arith, v.owned j)

  Move-Inv :
      {p p' : Pc} {m' : Mutex}
      → pc i ≡ p
      → Move false (pid i) m p m' p'
      → Inv n pid m' (update pc i p')
  Move-Inv e mv = record {
    held = Move-held e mv;
    alone = Move-alone e mv;
    owned = Move-owned e mv;
    flat = Move-flat e mv;
  }

Reach-Inv :
    {n : ℕ} {pid : ℕ → ℕ} {s : System}
    → IsDistinct n pid
    → Reach false n pid s
    → Inv n pid s.mutex s.pc
Reach-Inv d start = record {
  held = λ i h. absurd (cc);
  alone = λ i j h k. absurd (cc);
  owned = λ i l e. absurd (d.not_mark i l (sym e));
  flat = λ i. refl;
}
Reach-Inv d (later r (thread i l mv)) = Move-Inv d (Reach-Inv d r) i l refl mv

critical-inside : (p : Pc) → depth p ≡ 0 → is_critical p ≡ true → inside p ≡ true
critical-inside (within k) e h = h
critical-inside (trying k) e h = absurd (ground arith)
critical-inside (won k) e h = refl
critical-inside (leaving k) e h = refl

-- However `n` threads are interleaved that do not try to lock the mutex while they hold it, two of
-- them are never in their critical sections at once, if no two have the same pid and none has the
-- pid that marks a free mutex.
pub mutual_exclusion :
    {n : ℕ} {pid : ℕ → ℕ} {s : System}
    → IsDistinct n pid
    → Reach false n pid s
    → (i j : ℕ) → is_critical (s.pc i) ≡ true
    → is_critical (s.pc j) ≡ true
    → i ≡ j
mutual_exclusion {s = s} d r i j hi hj =
    let v = Reach-Inv d r in
    v.alone i j (critical-inside (s.pc i) (v.flat i) hi) (critical-inside (s.pc j) (v.flat j) hj)

-- A move from where a thread stands.
go :
    {nested : Bool} {q : ℕ} {m m' : Mutex} {p p' p'' : Pc}
    → p ≡ p'
    → Move nested q m p m' p''
    → Move nested q m p' m' p''
go {nested} {q} {m} {m'} {p} {p'} {p''} e mv = subst (λ x. Move nested q m x m' p'') e mv

-- Two threads with the same pid can both be in their critical sections, without nested locks: the
-- second one is taken for the owner.
pub same_pid_breaks_exclusion :
    (n : ℕ) (pid : ℕ → ℕ) (i j : ℕ)
    → i < n
    → j < n
    → i ≢ j
    → pid i ≡ pid j
    → (s : System) × Reach false n pid s
      × (is_critical (s.pc i) ≡ true)
      × (is_critical (s.pc j) ≡ true)
same_pid_breaks_exclusion n pid i j li lj ne same = (
  record {
    mutex = record { locked = 1; owner = pid i };
    pc =
        update (update (update (update (λ k. within 0) i (trying 0)) i (won 0)) i (within (0 + 1)))
          j (within (0 + 1));
  },
  later
      (later
        (later (later start (thread i li (try refl (inl refl))))
          (thread i li (go {p = trying 0} (ground arith) (win refl))))
        (thread i li (go {p = won 0} (ground arith) own)))
      (thread j lj (go {p = within 0} (ground arith) (already refl (omega arith) same))),
  ground arith,
  ground arith,
)

-- Where a thread locks again what it holds, its first unlock frees the mutex inside its outer
-- critical section, and any other thread can enter its own, whatever the pids.
pub nested_lock_breaks_exclusion :
    (n : ℕ) (pid : ℕ → ℕ) (i j : ℕ)
    → i < n
    → j < n
    → i ≢ j
    → (s : System) × Reach true n pid s
      × (is_critical (s.pc i) ≡ true)
      × (is_critical (s.pc j) ≡ true)
nested_lock_breaks_exclusion n pid i j li lj ne =
    let held : ℕ → Pc =
      update (update (update (λ k. within 0) i (trying 0)) i (won 0)) i (within (0 + 1)) in
    let freed : ℕ → Pc =
      update (update (update held i (within (1 + 1))) i (leaving 1)) i (within 1) in
    (
      record {
        mutex = record { locked = 1; owner = pid j };
        pc = update (update (update freed j (trying 0)) j (won 0)) j (within (0 + 1));
      },
      later
          (later
            (later
              (later
                (later
                  (later
                    (later
                      (later (later start (thread i li (try tt (inl refl))))
                        (thread i li (go {p = trying 0} (ground arith) (win refl))))
                      (thread i li (go {p = won 0} (ground arith) own)))
                    (thread i li
                      (go {p = within 1} (ground arith) (already tt (omega arith) refl))))
                  (thread i li (go {p = within (1 + 1)} (ground arith) disown)))
                (thread i li (go {p = leaving 1} (ground arith) release)))
              (thread j lj (go {p = within 0} (ground arith) (try tt (inl refl)))))
            (thread j lj (go {p = trying 0} (ground arith) (win refl))))
          (thread j lj (go {p = won 0} (ground arith) own)),
      ground arith,
      ground arith,
    )
