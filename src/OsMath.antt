-- ===== src/OsMath.antt =====
-- kernel/osmath.cpp: the evaluator of expressions. The input and the position in it are the rest
-- of the string. A division by zero, which traps, is an outcome of its own; so is running out of
-- fuel, of which each level of parentheses and each round of a loop takes one.
pub mod Fuel
mod Tests
use sabaka_os.Common.{
  ℕ, zero, suc, ◌+◌, ◌-◌, ◌*◌, ◌/◌, [], ◌∷◌, Bool, ◌&&◌, ◌||◌, leb, ◌==◌, if◌then◌else◌,
}
use sabaka_os.Common.Words.{u32, add32, sub32, mul32}
use sabaka_os.KString.Text.{CString}

pub data Parsed : Type 0 where
  parsed : (value : ℕ) (rest : CString) → Parsed
  divide_error out_of_fuel : Parsed

-- What is done with a value and the rest of the string.
abbrev pub and_then : Parsed → (ℕ → CString → Parsed) → Parsed
and_then (parsed value rest) f = f value rest
and_then divide_error f = divide_error
and_then out_of_fuel f = out_of_fuel

unfoldable pub skip_spaces : CString → CString
skip_spaces [] = []
skip_spaces (c ∷ s) = let rest = skip_spaces s in if c == b' ' then rest else c ∷ s

-- `parseNumber`, with the value so far.
unfoldable pub parse_number : ℕ → CString → Parsed
parse_number value [] = parsed value []
parse_number value (c ∷ s) =
    let rest = parse_number (u32 (value * 10 + (c - b'0'))) s in
    if leb b'0' c && leb c b'9' then rest else parsed value (c ∷ s)

-- `skipSpaces(); if (current() == ')') pos++;`
unfoldable pub close_paren : ℕ → CString → Parsed
close_paren value s = elim (skip_spaces s) [
  | [] ↦ parsed value []
  | c ∷ rest ↦ if c == b')' then parsed value rest else parsed value (c ∷ rest)
]

-- `parseFactor`, with `parseExpression` for what stands in parentheses.
unfoldable pub parse_factor : (CString → Parsed) → CString → Parsed
parse_factor expression s = elim (skip_spaces s) [
  | [] ↦ parse_number 0 []
  | c ∷ rest ↦
      let inner = and_then (expression rest) close_paren in
      if c == b'(' then inner else parse_number 0 (c ∷ rest)
]

abbrev pub apply_term : ℕ → ℕ → ℕ → CString → Parsed
apply_term op value rhs s =
    if op == b'*'
    then parsed (mul32 value rhs) s
    else if rhs == 0
    then divide_error
    else parsed (value / rhs) s

-- The loop of `parseTerm`.
unfoldable pub term_loop : (CString → Parsed) → ℕ → ℕ → CString → Parsed
term_loop expression zero value s = out_of_fuel
term_loop expression (suc fuel) value s = elim (skip_spaces s) [
  | [] ↦ parsed value []
  | op ∷ rest ↦
      let next =
        and_then (and_then (parse_factor expression rest) (apply_term op value))
          (term_loop expression fuel) in
      if op == b'*' || op == b'/' then next else parsed value (op ∷ rest)
]

unfoldable pub parse_term : (CString → Parsed) → ℕ → CString → Parsed
parse_term expression fuel s = and_then (parse_factor expression s) (term_loop expression fuel)

abbrev pub apply_sum : ℕ → ℕ → ℕ → CString → Parsed
apply_sum op value rhs s = parsed (if op == b'+' then add32 value rhs else sub32 value rhs) s

-- The loop of `parseExpression`.
unfoldable pub sum_loop : (CString → Parsed) → ℕ → ℕ → CString → Parsed
sum_loop expression zero value s = out_of_fuel
sum_loop expression (suc fuel) value s = elim (skip_spaces s) [
  | [] ↦ parsed value []
  | op ∷ rest ↦
      let next =
        and_then (and_then (parse_term expression fuel rest) (apply_sum op value))
          (sum_loop expression fuel) in
      if op == b'+' || op == b'-' then next else parsed value (op ∷ rest)
]

unfoldable pub parse_expression : ℕ → CString → Parsed
parse_expression zero s = out_of_fuel
parse_expression (suc fuel) s =
    and_then (parse_term (parse_expression fuel) fuel s) (sum_loop (parse_expression fuel) fuel)

unfoldable pub evaluate : ℕ → CString → Parsed
evaluate fuel expr = parse_expression fuel expr
