-- ===== src/EnvVars.antt =====
-- kernel/env_vars.h and kernel/env_vars.cpp: the table of environment variables. The strings are
-- the callers': the table keeps the pointers.
pub mod Lookup
mod Tests
use sabaka_os.Common.{zero, suc, ℕ, ◌+◌, Option, none, some, Bool, true, false, update, find_index}
use sabaka_os.Common.Int.{ℤ, pos, negsuc}
use sabaka_os.Common.Words.{add32}
use sabaka_os.KString.Text.{CString, kstrcmp}

-- `none` is a null value.
pub record EnvVar : Type 0 where
  pub key : CString
  pub value : Option CString

abbrev pub env_var_max : ℕ
env_var_max = 32

-- `env_vars`, of which the first `env_var_max` entries are in the array, and `env_count`.
pub record EnvVars : Type 0 where
  pub vars : ℕ → EnvVar
  pub count : ℕ

abbrev pub is_zero : ℤ → Bool
is_zero (pos zero) = true
is_zero (pos (suc n)) = false
is_zero (negsuc n) = false

-- `kstrcmp(env_vars[i].key, key) == 0`
abbrev pub has_name : (ℕ → EnvVar) → CString → ℕ → Bool
has_name vars key i = is_zero (kstrcmp (vars i).key key)

unfoldable pub env_get : EnvVars → CString → Option CString
env_get st key = elim (find_index (has_name st.vars key) 0 st.count) [
  | none ↦ none
  | some i ↦ (st.vars i).value
]

-- The source does not test `env_count` against ENV_VAR_MAX: it writes past the array where a key is
-- new and the array is full. What that overwrites is not modelled, and the theorems keep to a
-- table with room.
unfoldable pub env_set : EnvVars → CString → CString → EnvVars
env_set st key value = elim (find_index (has_name st.vars key) 0 st.count) [
  | some i ↦ record st { vars = update st.vars i (record (st.vars i) { value = some value }) }
  | none ↦ record {
    vars = update st.vars st.count (record { key = key; value = some value });
    count = add32 st.count 1;
  }
]

unfoldable pub env_unset : EnvVars → CString → EnvVars
env_unset st key = elim (find_index (has_name st.vars key) 0 st.count) [
  | some i ↦ record st { vars = update st.vars i (record (st.vars i) { value = none }) }
  | none ↦ st
]
