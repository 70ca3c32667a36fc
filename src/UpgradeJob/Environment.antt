-- ===== src/UpgradeJob/Environment.antt =====
-- The environment of a hook job: `flattenInto`, `cleanEnvVarName` and the loop that turns the values
-- into variables. Go visits the keys of a map in no fixed order; here they come in the order of the
-- object. The order matters only where two keys clean to one name.
pub mod Laws
use Prim.Native.Char.{Char, code}
use openshift_upgrade_contro.Prelude.{
  ℕ, zero, suc, ◌/◌, ◌%◌, ◌+◌, ◌==◌, leb, String, ◌<>◌, str_eq, Bool, true, false, ◌&&◌, ◌||◌,
  Option, none, some, List, [], ◌∷◌, map, ◌++◌, if◌then◌else◌, ◌≡◌, refl,
}
use openshift_upgrade_contro.Prelude.Dict.{Map, insert, remove}
use openshift_upgrade_contro.Prelude.Text.{string_lt}
use openshift_upgrade_contro.Prelude.Sort.{sort_by}
use openshift_upgrade_contro.Api.Upstream.{EnvVar, Container}
use openshift_upgrade_contro.Json.{
  Json, null, bool, num, str, arr, obj, Items, nil, cons, Fields, end, field,
}

-- The decimal digit of a number below 10.
digit : ℕ → String
digit n =
    if n == 0
    then "0"
    else if n == 1
    then "1"
    else if n == 2
    then "2"
    else if n == 3
    then "3"
    else if n == 4
    then "4"
    else if n == 5
    then "5"
    else if n == 6
    then "6"
    else if n == 7
    then "7"
    else if n == 8
    then "8"
    else "9"

-- The digits before those that are written; a number has no more digits than its value plus one.
itoa_loop : ℕ → ℕ → String → String
itoa_loop zero n s = s
itoa_loop (suc f) n s =
    let rest = itoa_loop f (n / 10) (digit (n % 10) <> s) in if leb n 9 then digit n <> s else rest

-- strconv.Itoa
unfoldable pub itoa : ℕ → String
unfolding itoa_loop digit
itoa n = itoa_loop (suc n) n ""

-- [a-zA-Z0-9_]
abbrev pub is_allowed : ℕ → Bool
is_allowed c =
    (leb b'a' c && leb c b'z')
    || ((leb b'A' c && leb c b'Z') || ((leb b'0' c && leb c b'9') || (c == b'_')))

unfoldable pub clean_env_var_name : String → String
clean_env_var_name String.[] = String.[]
clean_env_var_name (String.◌∷◌ c s) =
    String.◌∷◌ (if is_allowed (code c) then c else "_") (clean_env_var_name s)

unfoldable pub fmt_prefix : String → String
fmt_prefix s = if str_eq s "" then s else s <> "_"

unfoldable mutual
  pub flatten_into : Json → String → Map Json → Map Json
  flatten_into (obj fs) prefix target = flatten_fields fs prefix target
  flatten_into (arr xs) prefix target = flatten_items xs 0 prefix target
  flatten_into null prefix target = insert prefix null target
  flatten_into (bool b) prefix target = insert prefix (bool b) target
  flatten_into (num n) prefix target = insert prefix (num n) target
  flatten_into (str s) prefix target = insert prefix (str s) target

  pub flatten_fields : Fields → String → Map Json → Map Json
  flatten_fields end prefix target = target
  flatten_fields (field k v fs) prefix target =
      flatten_fields fs prefix (flatten_into v (fmt_prefix prefix <> clean_env_var_name k) target)

  pub flatten_items : Items → ℕ → String → Map Json → Map Json
  flatten_items nil i prefix target = target
  flatten_items (cons v xs) i prefix target =
      flatten_items xs (i + 1) prefix (flatten_into v (fmt_prefix prefix <> itoa i) target)

-- Values that cannot be marshalled are left out.
unfoldable pub env_vars : (Json → Option String) → Map Json → List EnvVar
env_vars marshal [] = []
env_vars marshal ((k, v) ∷ m) =
    let rest = env_vars marshal m in
    elim (marshal v) [ none ↦ rest | some mv ↦ record { name = k; value = mv } ∷ rest ]

unfoldable pub sorted_env : (Json → Option String) → Map Json → List EnvVar
unfolding env_vars sort_by
sorted_env marshal m = sort_by (λ a b. string_lt a.name b.name) (env_vars marshal m)

unfoldable pub add_env : List EnvVar → List Container → List Container
add_env envs cs = map (λ (c : Container). record c { env = c.env ++ envs }) cs

-- The variables of a hook job, from its normalised event, upgrade job and metadata.
unfoldable pub hook_environment : (Json → Option String) → Fields → Fields → Fields → List EnvVar
unfolding sorted_env flatten_into insert
hook_environment marshal event job meta =
    let evm = insert "META" (obj meta) (insert "JOB" (obj job) (insert "EVENT" (obj event) [])) in
    sorted_env marshal (
      flatten_into (obj meta) "META"
        (flatten_into (obj job) "JOB" (flatten_into (obj event) "EVENT" evm)))

flatten_example :
    flatten_into (obj (field "a-b" (arr (cons (num "1") (cons (str "x") nil))) end)) "EVENT" []
    ≡ ("EVENT_a_b_1", str "x") ∷ ("EVENT_a_b_0", num "1") ∷ []
unfolding flatten_into insert remove fmt_prefix clean_env_var_name itoa
flatten_example = refl
