-- ===== src/Pipe/Transfer.antt =====
-- kernel/pipe.cpp: whole calls of pipe_create, pipe_write, pipe_read and pipe_read_nb.
use sabaka_os.Common.{
  append-nil, subst, ◌^◌, ℕ, zero, suc, ◌+◌, ◌-◌, ◌*◌, ◌≤◌, ◌<◌, ◌≡◌, ◌⊎◌, inl, inr, refl, sym, ◌∙◌,
  ap, [], ◌++◌, true, false, ltb, leb, not, if◌then◌else◌, arith, slice, update, update_self, some,
  lt→ltb, Bool-cases, Option-cases, find_index, find_index-some,
}
use sabaka_os.Common.Int.{as_int, pos, minus_one}
use sabaka_os.Common.Words.{add32}
use sabaka_os.Pipe.{
  Pipe, Pipes, pipe_max, pipe_create, chunk_size, write_chunk, write_loop, pipe_write, read_chunk,
}
use sabaka_os.Pipe.Chunk.{IsValid, contents, write_chunk-IsValid, contents-write_chunk}

-- An open pipe of the table, in a good state.
pub record IsOpen (ps : Pipes) (i : ℕ) : Type 0 where
  pub in_range : i < pipe_max
  pub is_used : (ps i).used ≡ true
  pub valid : IsValid (ps i)

-- `pipe_create` opens an empty pipe that was not in use, or returns -1 and changes nothing, where
-- each of the eight is in use.
pub pipe_create_lem :
    (ps : Pipes)
    → let (ps', r) = pipe_create ps in
      ((i : ℕ) × (r ≡ pos i) × ((ps i).used ≡ false) × IsOpen ps' i × (contents (ps' i) ≡ []))
      ⊎ ((r ≡ minus_one) × (ps' ≡ ps))
unfolding pipe_create
pipe_create_lem ps = elim (Option-cases (find_index (λ i. not (ps i).used) 0 pipe_max)) [
  | inl e ↦ rw (e, pipe_create) (inr (refl, refl))
  | inr (i, e) ↦
      let f = find_index-some (λ i. not (ps i).used) 0 pipe_max e in
      let fresh : Pipe = record (ps i) {
        used = true;
        read_pos = 0;
        write_pos = 0;
        count = 0;
        write_closed = false;
      } in
      let here : update ps i fresh i ≡ fresh = update_self ps i fresh in
      rw (e, pipe_create)
        (inl (
          i,
          refl,
          ground (arith, f.passes),
          record {
            in_range = omega (arith, f.below);
            is_used = ap (λ p. p.used) here;
            valid = rw here (omega arith);
          },
          rw here,
        ))
]

used-write_chunk :
    (p : Pipe) (bytes : ℕ → ℕ) (written n : ℕ) → (write_chunk p bytes written n).used ≡ p.used
unfolding write_chunk
used-write_chunk p bytes written n = refl

pub used-read_chunk : (p : Pipe) (len : ℕ) → (read_chunk p len).0.used ≡ p.used
unfolding read_chunk
used-read_chunk p len = refl

-- The table after a critical section of `pipe_write`.
abbrev written_to : Pipes → ℕ → (ℕ → ℕ) → ℕ → ℕ → Pipes
written_to ps i bytes written n = update ps i (write_chunk (ps i) bytes written n)

written_to-IsOpen :
    (ps : Pipes) (i : ℕ) (bytes : ℕ → ℕ) (written n : ℕ)
    → IsOpen ps i
    → (ps i).count + n ≤ 1024
    → IsOpen (written_to ps i bytes written n) i
written_to-IsOpen ps i bytes written n o r =
    let here = update_self ps i (write_chunk (ps i) bytes written n) in
    record {
      in_range = o.in_range;
      is_used = ap (λ p. p.used) here ∙ used-write_chunk (ps i) bytes written n ∙ o.is_used;
      valid = subst IsValid (sym here) (write_chunk-IsValid bytes written n o.valid r);
    }

contents-written_to :
    (ps : Pipes) (i : ℕ) (bytes : ℕ → ℕ) (written n : ℕ)
    → IsOpen ps i
    → (ps i).count + n ≤ 1024
    → contents (written_to ps i bytes written n i) ≡ contents (ps i) ++ slice bytes written n
contents-written_to ps i bytes written n o r =
    ap contents (update_self ps i (write_chunk (ps i) bytes written n))
    ∙ contents-write_chunk bytes written n o.valid r

as_int_small : (n : ℕ) → n < 2147483648 → as_int n ≡ pos n
as_int_small n l = ground arith

-- The calls on an open pipe are the loops.
pipe_write-loop :
    (others : Pipes → Pipes) (fuel : ℕ) (ps : Pipes) (i : ℕ) (bytes : ℕ → ℕ) (len : ℕ)
    → IsOpen ps i
    → pipe_write others fuel ps (pos i) bytes len ≡ write_loop others i bytes len fuel ps 0
unfolding pipe_write
pipe_write-loop others fuel ps i bytes len o =
    rw (lt→ltb i pipe_max o.in_range, pipe_write) (rw o.is_used)

write_loop_done :
    (others : Pipes → Pipes) (i : ℕ) (bytes : ℕ → ℕ) (len fuel : ℕ) (ps : Pipes) (written : ℕ)
    → len ≤ written
    → write_loop others i bytes len (suc fuel) ps written ≡ some (ps, as_int written)
unfolding write_loop
write_loop_done others i bytes len fuel ps written h =
    let e : ltb written len ≡ false = ground arith in rw e

write_loop_wait :
    (others : Pipes → Pipes) (i : ℕ) (bytes : ℕ → ℕ) (len fuel : ℕ) (ps : Pipes) (written : ℕ)
    → written < len
    → 1024 ≤ (ps i).count
    → write_loop others i bytes len (suc fuel) ps written
      ≡ write_loop others i bytes len fuel (others ps) written
unfolding write_loop
write_loop_wait others i bytes len fuel ps written h f =
    let e : ltb written len ≡ true = ground arith in
    let e' : leb 1024 (ps i).count ≡ true = ground arith in rw (e, e')

write_loop_chunk :
    (others : Pipes → Pipes) (i : ℕ) (bytes : ℕ → ℕ) (len fuel : ℕ) (ps : Pipes) (written n : ℕ)
    → written < len
    → (ps i).count < 1024
    → len < 2 ^ 32
    → n ≡ chunk_size (ps i) len written
    → write_loop others i bytes len (suc fuel) ps written
      ≡ write_loop others i bytes len fuel (written_to ps i bytes written n) (written + n)
unfolding write_loop
write_loop_chunk others i bytes len fuel ps written n h f b c =
    let e : ltb written len ≡ true = ground arith in
    let e' : leb 1024 (ps i).count ≡ false = ground arith in
    let s : add32 written (chunk_size (ps i) len written)
        ≡ written + chunk_size (ps i) len written =
      ground arith in
    rw (e, e', s, c)

-- With room for all of `len` bytes, `pipe_write` does not wait: it returns `len`, and the bytes
-- stand behind those that the pipe held.
pub pipe_write_room :
    (others : Pipes → Pipes) (fuel : ℕ) (ps : Pipes) (i : ℕ) (bytes : ℕ → ℕ) (len : ℕ)
    → IsOpen ps i
    → (ps i).count + len ≤ 1024
    → (ps' : Pipes) × (pipe_write others (suc (suc fuel)) ps (pos i) bytes len
        ≡ some (ps', pos len))
      × (contents (ps' i) ≡ contents (ps i) ++ slice bytes 0 len)
      × IsOpen ps' i
pipe_write_room others fuel ps i bytes zero o r = (
  ps,
  pipe_write-loop others (suc (suc fuel)) ps i bytes 0 o
      ∙ write_loop_done others i bytes 0 (suc fuel) ps 0 (omega arith),
  rw append-nil,
  o,
)
pipe_write_room others fuel ps i bytes (suc k) o r = (
  written_to ps i bytes 0 (suc k),
  pipe_write-loop others (suc (suc fuel)) ps i bytes (suc k) o
      ∙ write_loop_chunk others i bytes (suc k) (suc fuel) ps 0 (suc k) (omega arith) (omega arith)
          (omega arith) (ground arith)
      ∙ write_loop_done others i bytes (suc k) fuel (written_to ps i bytes 0 (suc k)) (0 + suc k)
          (omega arith)
      ∙ ap (λ k'. some (written_to ps i bytes 0 (suc k), as_int k')) (omega arith)
      ∙ ap (λ c. some (written_to ps i bytes 0 (suc k), c)) (as_int_small (suc k) (omega arith)),
  contents-written_to ps i bytes 0 (suc k) o r,
  written_to-IsOpen ps i bytes 0 (suc k) o r,
)

-- Whenever the writer yields, the other processes leave the pipe open and with room for a byte.
abbrev pub Drains : (Pipes → Pipes) → ℕ → Type 0
Drains others i = (ps : Pipes) → IsOpen ps i → IsOpen (others ps) i × (((others ps) i).count < 1024)

write_loop_returns :
    (others : Pipes → Pipes) (i : ℕ) (bytes : ℕ → ℕ) (len fuel : ℕ) (ps : Pipes) (written : ℕ)
    → Drains others i
    → len < 2 ^ 32
    → written ≤ len
    → IsOpen ps i
    → 2 * (len - written) + (if leb 1024 (ps i).count then 1 else 0) < fuel
    → (ps' : Pipes) × (write_loop others i bytes len fuel ps written ≡ some (ps', as_int len))
      × IsOpen ps' i
write_loop_returns others i bytes len zero ps written d b w o f = absurd (omega arith)
write_loop_returns others i bytes len (suc fuel) ps written d b w o f =
    elim (Bool-cases (ltb written len)) [
      | inr done ↦ (
        ps,
        write_loop_done others i bytes len fuel ps written (ground arith)
            ∙ ap (λ k. some (ps, as_int k)) (ground arith),
        o,
      )
      | inl more ↦ elim (Bool-cases (leb 1024 (ps i).count)) [
        | inl full ↦
            let (o', room) = d ps o in
            let (ps', e, o'') =
              write_loop_returns others i bytes len fuel (others ps) written d b w o'
                (ground arith) in
            (
              ps',
              write_loop_wait others i bytes len fuel ps written (ground arith) (ground arith) ∙ e,
              o'',
            )
        | inr room ↦
            let n = chunk_size (ps i) len written in
            let (ps', e, o') =
              write_loop_returns others i bytes len fuel (written_to ps i bytes written n)
                (written + n) d b (ground (arith, o.valid.count_in))
                (written_to-IsOpen ps i bytes written n o (ground (arith, o.valid.count_in)))
                (ground (arith, o.valid.count_in)) in
            (
              ps',
              write_loop_chunk others i bytes len fuel ps written n (ground arith) (ground arith) b
                    refl
                  ∙ e,
              o',
            )
      ]
    ]

-- A `pipe_write` of any `len` below 2 ^ 32 ends and returns `len` as an `int`, which is `len` itself
-- below 2 ^ 31, if whenever it waits the other processes make room for a byte at least:
-- `2 * len + 2` rounds of the loop are enough.
pub pipe_write_returns :
    (others : Pipes → Pipes) (fuel : ℕ) (ps : Pipes) (i : ℕ) (bytes : ℕ → ℕ) (len : ℕ)
    → Drains others i
    → IsOpen ps i
    → len < 2 ^ 32
    → 2 * len + 2 ≤ fuel
    → (ps' : Pipes) × (pipe_write others fuel ps (pos i) bytes len ≡ some (ps', as_int len))
      × IsOpen ps' i
pipe_write_returns others fuel ps i bytes len d o b f =
    let (ps', e, o') =
      write_loop_returns others i bytes len fuel ps 0 d b (omega arith) o (ground arith) in
    (ps', pipe_write-loop others fuel ps i bytes len o ∙ e, o')
