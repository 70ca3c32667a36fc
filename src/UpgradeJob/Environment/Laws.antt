-- ===== src/UpgradeJob/Environment/Laws.antt =====
-- The names of the variables of a hook job.
use Prim.Native.Char.{code}
use openshift_upgrade_contro.Prelude.{String, ◌≡◌, refl, true, Bool-cases, inl, inr}
use openshift_upgrade_contro.UpgradeJob.Environment.{is_allowed, clean_env_var_name}

-- Every character is a letter, a digit or an underscore.
abbrev pub IsVarName : String → Type 0
IsVarName String.[] = Unit
IsVarName (String.◌∷◌ c s) = (is_allowed (code c) ≡ true) × IsVarName s

-- A cleaned name has only letters, digits and underscores.
pub clean_env_var_name-IsVarName : (s : String) → IsVarName (clean_env_var_name s)
unfolding clean_env_var_name
clean_env_var_name-IsVarName String.[] = tt
clean_env_var_name-IsVarName (String.◌∷◌ c s) = elim (Bool-cases (is_allowed (code c))) [
  | inl e ↦ rw e (e, clean_env_var_name-IsVarName s)
  | inr e ↦ rw e (refl, clean_env_var_name-IsVarName s)
]

-- Cleaning changes exactly the names that have some other character.
pub clean_env_var_name_of_IsVarName : (s : String) → IsVarName s → clean_env_var_name s ≡ s
unfolding clean_env_var_name
clean_env_var_name_of_IsVarName String.[] h = refl
clean_env_var_name_of_IsVarName (String.◌∷◌ c s) h =
    rw (h.0, clean_env_var_name_of_IsVarName s h.1) refl
