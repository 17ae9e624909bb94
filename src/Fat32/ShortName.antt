-- ===== src/Fat32/ShortName.antt =====
-- kernel/fat32.cpp, ucs2_to_ascii to kstricmp: long names, and names of eight and three characters.
use sabaka_os.Common.{
  ℕ, zero, suc, ◌+◌, ◌-◌, List, [], ◌∷◌, ◌++◌, Option, none, some, Bool, true, false, not, ◌&&◌,
  ◌||◌, ltb, leb, ◌==◌, if◌then◌else◌, length,
}
use sabaka_os.Common.Int.{ℤ, pos}
use sabaka_os.KString.Text.{CString}
use sabaka_os.KString.Memory.{byte_diff}

unfoldable pub ucs2_to_ascii : ℕ → ℕ
ucs2_to_ascii c = if leb 0x20 c && leb c 0x7E then c else b'_'

-- `c == 0xFFFF || c == 0x0000`
abbrev pub ends_name : ℕ → Bool
ends_name c = c == 0xFFFF || c == 0

-- The characters of one entry, those of `name1`, `name2` and `name3`, after `out`; and whether the
-- name ends there.
unfoldable pub collect_entry : ℕ → List ℕ → CString → CString × Bool
collect_entry out_size [] out = (out, false)
collect_entry out_size (c ∷ cs) out =
    let rest = collect_entry out_size cs (out ++ (ucs2_to_ascii c ∷ [])) in
    if not (ltb (length out + 1) out_size)
    then (out, false)
    else if ends_name c
    then (out, true)
    else rest

-- The entries, the last one first.
unfoldable pub lfn_collect : ℕ → List (List ℕ) → CString → CString
lfn_collect out_size [] out = out
lfn_collect out_size (e ∷ es) out =
    let (out', done) = collect_entry out_size e out in
    let rest = lfn_collect out_size es out' in if done then out' else rest

-- `if (c >= 'a' && c <= 'z') c -= 32;`
abbrev pub upper : ℕ → ℕ
upper c = if leb b'a' c && leb c b'z' then c - 32 else c

-- The name and the extension of a directory entry, without NUL.
pub record ShortName : Type 0 where
  pub name : List ℕ
  pub ext : List ℕ

-- The bytes of a field up to the first space.
unfoldable pub until_space : List ℕ → CString
until_space [] = []
until_space (c ∷ s) = let rest = until_space s in if c == b' ' then [] else c ∷ rest

-- A dot and the extension, if it does not start with a space.
abbrev pub dot_ext : List ℕ → CString
dot_ext [] = []
dot_ext (c ∷ s) = if c == b' ' then [] else b'.' ∷ until_space (c ∷ s)

unfoldable pub parse_83_name : ShortName → CString
parse_83_name e = until_space e.name ++ dot_ext e.ext

-- What is before the last dot, and what is after it, `none` where there is no dot.
unfoldable pub split_last_dot : CString → CString × Option CString
split_last_dot [] = ([], none)
split_last_dot (c ∷ s) =
    let (base, ext) = split_last_dot s in
    elim ext [
      | some e ↦ (c ∷ base, some e)
      | none ↦ if c == b'.' then ([], some s) else (c ∷ base, none)
    ]

-- A field of `n` bytes, filled up with spaces.
unfoldable pub fill_field : ℕ → CString → List ℕ
fill_field zero s = []
fill_field (suc n) [] = b' ' ∷ fill_field n []
fill_field (suc n) (c ∷ s) = upper c ∷ fill_field n s

abbrev pub or_empty : Option CString → CString
or_empty none = []
or_empty (some s) = s

unfoldable pub make_83 : CString → ShortName
make_83 name =
    let (base, ext) = split_last_dot name in
    record { name = fill_field 8 base; ext = fill_field 3 (or_empty ext) }

unfoldable pub kstricmp : CString → CString → ℤ
kstricmp [] [] = pos 0
kstricmp [] (d ∷ t) = byte_diff 0 d
kstricmp (c ∷ s) [] = byte_diff c 0
kstricmp (c ∷ s) (d ∷ t) =
    let rest = kstricmp s t in if upper c == upper d then rest else byte_diff (upper c) (upper d)
