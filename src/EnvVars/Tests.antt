-- ===== src/EnvVars/Tests.antt =====
-- Examples for the environment variables of kernel/env_vars.cpp.
use sabaka_os.Common.{◌≡◌, arith, none, some, [], ◌∷◌}
use sabaka_os.KString.Text.{CString}
use sabaka_os.EnvVars.{EnvVars, env_get, env_set, env_unset}
use sabaka_os.EnvVars.Lookup.{env_get-env_set}

abbrev path : CString
path = b'P' ∷ b'A' ∷ b'T' ∷ b'H' ∷ []

abbrev root : CString
root = b'/' ∷ []

-- One variable with the key, which has been unset.
abbrev one_unset : EnvVars
one_unset = record { vars = λ i. record { key = path; value = none }; count = 1 }

env_get-env_set_example :
    (env_get (env_set one_unset path root) path ≡ some root)
    × (env_get (env_unset one_unset path) path ≡ none)
env_get-env_set_example = env_get-env_set one_unset path root (omega arith)
