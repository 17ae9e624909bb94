-- ===== src/OsMath/Fuel.antt =====
-- kernel/osmath.cpp: that the evaluator ends, on fuel for the length of its input.
use sabaka_os.Common.{
  ℕ, zero, suc, ◌+◌, ◌≤◌, ◌<◌, ◌≢◌, [], ◌∷◌, Bool, true, false, ◌&&◌, ◌||◌, leb, ◌==◌,
  if◌then◌else◌, arith, length,
}
use sabaka_os.KString.Text.{CString}
use sabaka_os.OsMath.{
  Parsed, parsed, divide_error, out_of_fuel, and_then, skip_spaces, parse_number, close_paren,
  parse_factor, apply_term, term_loop, parse_term, apply_sum, sum_loop, parse_expression, evaluate,
}

-- The parser has ended, by a trap or with at most `n` characters left.
pub data Ends (n : ℕ) : Parsed → Type 0 where
  ends : {value : ℕ} {rest : CString} → length rest ≤ n → Ends n (parsed value rest)
  trapped : Ends n divide_error

Ends-out_of_fuel : {n : ℕ} {p : Parsed} → Ends n p → p ≢ out_of_fuel
Ends-out_of_fuel (ends l) = cc
Ends-out_of_fuel trapped = cc

Ends-le : {m n : ℕ} {p : Parsed} → m ≤ n → Ends m p → Ends n p
Ends-le h (ends l) = ends (omega arith)
Ends-le h trapped = trapped

Ends-and_then :
    {m n : ℕ} {p : Parsed} {f : ℕ → CString → Parsed}
    → Ends m p
    → ((value : ℕ) (rest : CString) → length rest ≤ m → Ends n (f value rest))
    → Ends n (and_then p f)
Ends-and_then (ends {value} {rest} l) k = k value rest l
Ends-and_then trapped k = trapped

Ends-if : {n : ℕ} (b : Bool) {p q : Parsed} → Ends n p → Ends n q → Ends n (if b then p else q)
Ends-if true x y = x
Ends-if false x y = y

length-skip_spaces : (s : CString) → length (skip_spaces s) ≤ length s
unfolding skip_spaces
length-skip_spaces [] = omega arith
length-skip_spaces (c ∷ s) = ground (arith, length-skip_spaces s)

Ends-parse_number : (s : CString) (value : ℕ) → Ends (length s) (parse_number value s)
unfolding parse_number
Ends-parse_number [] value = ends (omega arith)
Ends-parse_number (c ∷ s) value =
    Ends-if (leb b'0' c && leb c b'9') (Ends-le (omega arith) (Ends-parse_number s _))
      (ends (omega arith))

-- Past the spaces, a string is empty or has a first character.
Ends-skipped :
    {n : ℕ} (s : CString) (f : CString → Parsed)
    → Ends n (f [])
    → ((c : ℕ) (rest : CString) → length rest < length s → Ends n (f (c ∷ rest)))
    → Ends n (f (skip_spaces s))
Ends-skipped {n} s f base step = by_cases (skip_spaces s) (length-skip_spaces s)
  where
    by_cases : (t : CString) → length t ≤ length s → Ends n (f t)
    by_cases [] l = base
    by_cases (c ∷ t) l = step c t (omega arith)

Ends-close_paren : (value : ℕ) (s : CString) → Ends (length s) (close_paren value s)
unfolding close_paren
Ends-close_paren value s =
    Ends-skipped s
      (λ t. elim t [
        | [] ↦ parsed value []
        | c ∷ rest ↦ if c == b')' then parsed value rest else parsed value (c ∷ rest)
      ])
      (ends (omega arith))
      (λ c rest l. Ends-if (c == b')') (ends (omega arith)) (ends (omega arith)))

-- The parser of what stands in parentheses ends on strings of fewer than `k - 1` characters.
abbrev EndsBelow : ℕ → (CString → Parsed) → Type 0
EndsBelow k expression = (s : CString) → length s + 2 ≤ k → Ends (length s) (expression s)

module _ {k : ℕ} {expression : CString → Parsed} (inner : EndsBelow k expression) where
  Ends-parse_factor : (s : CString) → length s < k → Ends (length s) (parse_factor expression s)
  unfolding parse_factor
  Ends-parse_factor s l =
      Ends-skipped s
        (λ t. elim t [
          | [] ↦ parse_number 0 []
          | c ∷ rest ↦
              if c == b'('
              then and_then (expression rest) close_paren
              else parse_number 0 (c ∷ rest)
        ])
        (Ends-le (omega arith) (Ends-parse_number [] 0))
        (λ c rest h.
          Ends-if (c == b'(')
            (Ends-and_then (inner rest (omega arith))
              (λ value t g. Ends-le (omega arith) (Ends-close_paren value t)))
            (Ends-le (omega arith) (Ends-parse_number (c ∷ rest) 0)))

  Ends-apply_term : (op value rhs : ℕ) (s : CString) → Ends (length s) (apply_term op value rhs s)
  Ends-apply_term op value rhs s =
      Ends-if (op == b'*') (ends (omega arith)) (Ends-if (rhs == 0) trapped (ends (omega arith)))

  Ends-term_loop :
      (fuel : ℕ) (value : ℕ) (s : CString)
      → length s < fuel
      → length s < k
      → Ends (length s) (term_loop expression fuel value s)
  unfolding term_loop
  Ends-term_loop zero value s l h = absurd (omega arith)
  Ends-term_loop (suc fuel) value s l h =
      Ends-skipped s
        (λ t. elim t [
          | [] ↦ parsed value []
          | op ∷ rest ↦
              if op == b'*' || op == b'/'
              then and_then (and_then (parse_factor expression rest) (apply_term op value))
                  (term_loop expression fuel)
              else parsed value (op ∷ rest)
        ])
        (ends (omega arith))
        (λ op rest g.
          Ends-if (op == b'*' || op == b'/')
            (Ends-le {m = length rest} (omega arith) (
              Ends-and_then {m = length rest}
                (Ends-and_then {m = length rest} (Ends-parse_factor rest (omega arith))
                  (λ rhs t g'. Ends-le (omega arith) (Ends-apply_term op value rhs t)))
                (λ v t g'.
                  Ends-le (omega arith) (Ends-term_loop fuel v t (omega arith) (omega arith)))))
            (ends (omega arith)))

  Ends-parse_term :
      (fuel : ℕ) (s : CString)
      → length s < fuel
      → length s < k
      → Ends (length s) (parse_term expression fuel s)
  unfolding parse_term
  Ends-parse_term fuel s l h =
      Ends-and_then (Ends-parse_factor s h)
        (λ v t g. Ends-le (omega arith) (Ends-term_loop fuel v t (omega arith) (omega arith)))

  Ends-sum_loop :
      (fuel : ℕ) (value : ℕ) (s : CString)
      → length s < fuel
      → length s < k
      → Ends (length s) (sum_loop expression fuel value s)
  unfolding sum_loop
  Ends-sum_loop zero value s l h = absurd (omega arith)
  Ends-sum_loop (suc fuel) value s l h =
      Ends-skipped s
        (λ t. elim t [
          | [] ↦ parsed value []
          | op ∷ rest ↦
              if op == b'+' || op == b'-'
              then and_then (and_then (parse_term expression fuel rest) (apply_sum op value))
                  (sum_loop expression fuel)
              else parsed value (op ∷ rest)
        ])
        (ends (omega arith))
        (λ op rest g.
          Ends-if (op == b'+' || op == b'-')
            (Ends-le {m = length rest} (omega arith) (
              Ends-and_then {m = length rest}
                (Ends-and_then {m = length rest}
                  (Ends-parse_term fuel rest (omega arith) (omega arith)) (λ rhs t g'. ends g'))
                (λ v t g'.
                  Ends-le (omega arith) (Ends-sum_loop fuel v t (omega arith) (omega arith)))))
            (ends (omega arith)))

Ends-parse_expression :
    (fuel : ℕ) (s : CString) → length s + 2 ≤ fuel → Ends (length s) (parse_expression fuel s)
unfolding parse_expression
Ends-parse_expression zero s l = absurd (omega arith)
Ends-parse_expression (suc fuel) s l =
    let inner : EndsBelow fuel (parse_expression fuel) = λ t h. Ends-parse_expression fuel t h in
    Ends-and_then (Ends-parse_term inner fuel s (omega arith) (omega arith))
      (λ v t g. Ends-le (omega arith) (Ends-sum_loop inner fuel v t (omega arith) (omega arith)))

-- The evaluator ends on every input, well formed or not: fuel for two characters more than the
-- input has is enough. It ends with a value, having read on and never back, or by dividing by zero.
pub evaluate-Ends :
    (fuel : ℕ) (s : CString) → length s + 2 ≤ fuel → Ends (length s) (evaluate fuel s)
unfolding evaluate
evaluate-Ends fuel s l = Ends-parse_expression fuel s l
