-- ===== src/OsMath/Tests.antt =====
-- Runs of the evaluator of kernel/osmath.cpp.
use sabaka_os.Common.{◌≡◌, refl, [], ◌∷◌, length, arith}
use sabaka_os.OsMath.Fuel.{Ends, evaluate-Ends}
use sabaka_os.KString.Text.{CString}
use sabaka_os.OsMath.{
  parsed, divide_error, evaluate, skip_spaces, parse_number, parse_factor, close_paren, term_loop,
  parse_term, sum_loop, parse_expression,
}

-- "2 + 3*(5-1)"
abbrev sum_of_product : CString
sum_of_product = b'2' ∷ b' ' ∷ b'+' ∷ b' ' ∷ b'3' ∷ b'*' ∷ b'(' ∷ b'5' ∷ b'-' ∷ b'1' ∷ b')' ∷ []

evaluates : evaluate 12 sum_of_product ≡ parsed 14 []
unfolding evaluate parse_expression parse_term sum_loop term_loop parse_factor close_paren
    parse_number skip_spaces
evaluates = refl

-- "7/0"
abbrev by_zero : CString
by_zero = b'7' ∷ b'/' ∷ b'0' ∷ []

traps : evaluate 12 by_zero ≡ divide_error
unfolding evaluate parse_expression parse_term sum_loop term_loop parse_factor close_paren
    parse_number skip_spaces
traps = refl

evaluate-Ends_example : Ends (length sum_of_product) (evaluate 13 sum_of_product)
evaluate-Ends_example = evaluate-Ends 13 sum_of_product (omega arith)
