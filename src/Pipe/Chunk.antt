-- ===== src/Pipe/Chunk.antt =====
-- kernel/pipe.cpp: the critical sections of the reads and of the write, against a queue of bytes.
use sabaka_os.Common.{
  ℕ, ◌+◌, ◌-◌, ◌%◌, ◌≤◌, ◌<◌, ◌≡◌, sym, ◌∙◌, ap, List, ◌++◌, arith, length, slice,
}
use sabaka_os.Common.Ring.{
  window, length-window, window-add, window-put_loop, put_loop_pos, get_loop_out, get_loop_pos,
  step_mod_add,
}
use sabaka_os.Pipe.{sub32, Pipe, write_chunk, read_chunk, available}

pub record IsValid (p : Pipe) : Type 0 where
  pub read_in : p.read_pos < 1024
  pub count_in : p.count ≤ 1024
  pub write_at : p.write_pos ≡ (p.read_pos + p.count) % 1024

-- The bytes that were written and not read yet, oldest first.
abbrev pub contents : Pipe → List ℕ
contents p = window p.buf 1024 p.read_pos p.count

pub length-contents : (p : Pipe) → length (contents p) ≡ p.count
length-contents p = length-window p.buf 1024 p.read_pos p.count

pub write_chunk-IsValid :
    {p : Pipe} (bytes : ℕ → ℕ) (written n : ℕ)
    → IsValid p
    → p.count + n ≤ 1024
    → IsValid (write_chunk p bytes written n)
unfolding write_chunk
write_chunk-IsValid {p} bytes written n v r = record {
  read_in = v.read_in;
  count_in = omega arith;
  write_at =
      put_loop_pos 1024 p.buf p.write_pos bytes written n (omega arith)
      ∙ (let c : (p.count + n) % 4294967296 ≡ p.count + n = omega arith in
          rw (c, v.write_at) (step_mod_add 1024 p.read_pos p.count n));
}

-- A chunk that fits goes behind the bytes that the pipe holds.
pub contents-write_chunk :
    {p : Pipe} (bytes : ℕ → ℕ) (written n : ℕ)
    → IsValid p
    → p.count + n ≤ 1024
    → contents (write_chunk p bytes written n) ≡ contents p ++ slice bytes written n
unfolding write_chunk
contents-write_chunk {p} bytes written n v r =
    let c : (p.count + n) % 4294967296 ≡ p.count + n = omega arith in
    rw c (
      window-put_loop 1024 p.buf p.read_pos p.count p.write_pos bytes written n v.read_in r
        v.write_at)

pub read_chunk-IsValid : {p : Pipe} (len : ℕ) → IsValid p → IsValid (read_chunk p len).0
unfolding read_chunk
read_chunk-IsValid {p} len v = record {
  read_in = rw (get_loop_pos 1024 p.buf p.read_pos (available p len) v.read_in) (omega arith);
  count_in = ground arith;
  write_at =
      v.write_at
      ∙ (let c : sub32 p.count (available p len) ≡ p.count - available p len = ground arith in
          rw (c, get_loop_pos 1024 p.buf p.read_pos (available p len) v.read_in)
            (sym (
              step_mod_add 1024 p.read_pos (available p len) (p.count - available p len)
              ∙ ap (λ k. (p.read_pos + k) % 1024) (ground arith))));
}

-- A read takes the oldest bytes, as many as there are up to `len`, and leaves the others.
pub contents-read_chunk :
    {p : Pipe} (len : ℕ)
    → IsValid p
    → let (p', out) = read_chunk p len in
      (contents p ≡ out ++ contents p') × (length out ≡ available p len)
unfolding read_chunk
contents-read_chunk {p} len v = (
  (let c : sub32 p.count (available p len) ≡ p.count - available p len = ground arith in
      let s : p.count ≡ available p len + (p.count - available p len) = ground arith in
      rw
        (
          c,
          get_loop_pos 1024 p.buf p.read_pos (available p len) v.read_in,
          get_loop_out 1024 p.buf p.read_pos (available p len),
        )
        (ap (window p.buf 1024 p.read_pos) s
          ∙ window-add p.buf 1024 p.read_pos (available p len) (p.count - available p len)
              v.read_in)),
  ap length (get_loop_out 1024 p.buf p.read_pos (available p len))
      ∙ length-window p.buf 1024 p.read_pos (available p len),
)
