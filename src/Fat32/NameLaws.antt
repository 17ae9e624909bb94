-- ===== src/Fat32/NameLaws.antt =====
-- kernel/fat32.cpp, make_83 and parse_83_name: a name that fits reads as it was written, in capitals.
use sabaka_os.Common.{
  ℕ, zero, suc, ◌≤◌, ◌≡◌, ◌≢◌, refl, ◌∙◌, sym, ap, ap₂, [], ◌∷◌, ◌++◌, map, Option, none, some,
  false, ◌==◌, length, arith, ==_ne,
}
use sabaka_os.KString.Text.{CString}
use sabaka_os.Fat32.ShortName.{
  upper, until_space, dot_ext, parse_83_name, split_last_dot, fill_field, or_empty, make_83,
}

-- No byte of a text is `d`.
abbrev pub Without : ℕ → CString → Type 0
Without d [] = zero ≡ zero
Without d (c ∷ s) = (c ≢ d) × Without d s

upper-ne : (c : ℕ) → c ≢ b' ' → (upper c == b' ') ≡ false
upper-ne c n = ground arith

until_space-fill_field :
    (n : ℕ) (s : CString)
    → length s ≤ n
    → Without b' ' s
    → until_space (fill_field n s) ≡ map upper s
unfolding until_space fill_field
until_space-fill_field zero [] l w = refl
until_space-fill_field zero (c ∷ s) l w = absurd (omega arith)
until_space-fill_field (suc n) [] l w = refl
until_space-fill_field (suc n) (c ∷ s) l w =
    rw (upper-ne c w.0)
      (ap (λ (t : CString). upper c ∷ t) (until_space-fill_field n s (omega arith) w.1))

split_last_dot-Without : (s : CString) → Without b'.' s → split_last_dot s ≡ (s, none)
unfolding split_last_dot
split_last_dot-Without [] w = refl
split_last_dot-Without (c ∷ s) w =
    rw (split_last_dot, split_last_dot-Without s w.1, ==_ne c b'.' w.0)
      (ap (λ (p : CString × Option CString). (c ∷ p.0, none)) (split_last_dot-Without s w.1))

split_last_dot-append :
    (base ext : CString)
    → Without b'.' ext
    → split_last_dot (base ++ (b'.' ∷ ext)) ≡ (base, some ext)
unfolding split_last_dot
split_last_dot-append [] ext w = rw (split_last_dot, split_last_dot-Without ext w) refl
split_last_dot-append (c ∷ base) ext w =
    rw (split_last_dot, split_last_dot-append base ext w)
      (ap (λ (p : CString × Option CString). (c ∷ p.0, some ext))
        (split_last_dot-append base ext w))

map-append : (s t : CString) → map upper (s ++ t) ≡ map upper s ++ map upper t
map-append [] t = refl
map-append (c ∷ s) t = ap (λ (x : CString). upper c ∷ x) (map-append s t)

dot_ext-fill_field :
    (c : ℕ) (s : CString)
    → length s ≤ 2
    → Without b' ' (c ∷ s)
    → dot_ext (fill_field 3 (c ∷ s)) ≡ b'.' ∷ map upper (c ∷ s)
unfolding fill_field
dot_ext-fill_field c s l w =
    rw (upper-ne c w.0)
      (ap (λ (t : CString). b'.' ∷ t) (until_space-fill_field 3 (c ∷ s) (omega arith) w))

-- A name of at most eight characters, a dot, and one to three characters, without spaces, and
-- without a dot in the extension, is read from a directory entry as it was put there by make_83, in
-- capitals.
pub parse_83_name-make_83 :
    (base : CString) (c : ℕ) (s : CString)
    → length base ≤ 8
    → length s ≤ 2
    → Without b' ' base
    → Without b' ' (c ∷ s)
    → Without b'.' (c ∷ s)
    → parse_83_name (make_83 (base ++ (b'.' ∷ c ∷ s))) ≡ map upper (base ++ (b'.' ∷ c ∷ s))
unfolding parse_83_name make_83
parse_83_name-make_83 base c s l l' w w' d =
    ap
      (λ (p : CString × Option CString).
        until_space (fill_field 8 p.0) ++ dot_ext (fill_field 3 (or_empty p.1)))
      (split_last_dot-append base (c ∷ s) d)
    ∙ ap₂ ◌++◌ (until_space-fill_field 8 base l w) (dot_ext-fill_field c s l' w')
    ∙ sym (map-append base (b'.' ∷ c ∷ s))
