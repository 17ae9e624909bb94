-- ===== src/EnvVars/Lookup.antt =====
-- kernel/env_vars.cpp: what env_get finds after env_set and env_unset.
use sabaka_os.Common.{
  ℕ, ◌+◌, ◌%◌, ◌<◌, ◌≡◌, inl, inr, refl, ◌∙◌, ap, Option, none, some, true, false, arith, update,
  update_self, find_index, find_index-some, find_index-none, find_index_of, IsFirst, Option-cases,
}
use sabaka_os.KString.Text.{CString}
use sabaka_os.KString.Compare.{kstrcmp_self}
use sabaka_os.EnvVars.{env_var_max, EnvVar, EnvVars, has_name, env_get, env_set, env_unset}

has_name_self :
    (vars : ℕ → EnvVar) (key : CString) (i : ℕ) → (vars i).key ≡ key → has_name vars key i ≡ true
has_name_self vars key i e = rw (e, kstrcmp_self key) refl

found :
    (vars : ℕ → EnvVar) (count : ℕ) (key : CString) (i : ℕ)
    → IsFirst (has_name vars key) 0 (0 + count) i
    → env_get (record { vars = vars; count = count }) key ≡ (vars i).value
unfolding env_get
found vars count key i f = rw (find_index_of (has_name vars key) 0 count i f, env_get) refl

-- A new value under the same key is where the old one was.
has_name-update :
    (vars : ℕ → EnvVar) (key : CString) (i j : ℕ) (v : Option CString)
    → has_name (update vars i (record (vars i) { value = v })) key j ≡ has_name vars key j
has_name-update vars key i j v = ground arith

replaced :
    (vars : ℕ → EnvVar) (count : ℕ) (key : CString) (v : Option CString) (i : ℕ)
    → find_index (has_name vars key) 0 count ≡ some i
    → env_get (record { vars = update vars i (record (vars i) { value = v }); count = count }) key
      ≡ v
replaced vars count key v i e =
    let f = find_index-some (has_name vars key) 0 count e in
    found (update vars i (record (vars i) { value = v })) count key i (record {
      above = f.above;
      below = f.below;
      passes = has_name-update vars key i i v ∙ f.passes;
      earlier = λ j a b. has_name-update vars key i j v ∙ f.earlier j a b;
    })
    ∙ ap (λ x. x.value) (update_self vars i (record (vars i) { value = v }))

added :
    (vars : ℕ → EnvVar) (count : ℕ) (key : CString) (x : EnvVar)
    → x.key ≡ key
    → find_index (has_name vars key) 0 count ≡ none
    → env_get (record { vars = update vars count x; count = count + 1 }) key ≡ x.value
added vars count key x k e =
    let here = update_self vars count x in
    found (update vars count x) (count + 1) key count (record {
      above = omega arith;
      below = omega arith;
      passes = has_name_self (update vars count x) key count (ap (λ y. y.key) here ∙ k);
      earlier =
          λ j a b. other j b (find_index-none (has_name vars key) 0 count e j a (omega arith));
    })
    ∙ ap (λ y. y.value) here
  where
    other :
        (j : ℕ)
        → j < count
        → has_name vars key j ≡ false
        → has_name (update vars count x) key j ≡ false
    other j b h = ground arith

-- `env_get` of a key gives the value that `env_set` set last, whether the key is new or has a value
-- already, and none after `env_unset`, while the table, of 32 entries, is not full.
pub env_get-env_set :
    (st : EnvVars) (key value : CString)
    → st.count < env_var_max
    → (env_get (env_set st key value) key ≡ some value) × (env_get (env_unset st key) key ≡ none)
unfolding env_set env_unset env_get
env_get-env_set st key value l =
    elim (Option-cases (find_index (has_name st.vars key) 0 st.count)) [
      | inr (i, e) ↦ (
        rw (e, env_set) (replaced st.vars st.count key (some value) i e),
        rw (e, env_unset) (replaced st.vars st.count key none i e),
      )
      | inl e ↦
          let c : (st.count + 1) % 4294967296 ≡ st.count + 1 = omega arith in
          (
            rw (e, env_set, c)
                (added st.vars st.count key (record { key = key; value = some value }) refl e),
            rw (e, env_unset) (missing e),
          )
    ]
  where
    missing : find_index (has_name st.vars key) 0 st.count ≡ none → env_get st key ≡ none
    missing e = rw (e, env_get) refl
