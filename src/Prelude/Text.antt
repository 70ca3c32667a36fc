-- ===== src/Prelude/Text.antt =====
-- `strings.Join` and `strings.Compare`.
use Prim.Native.String.{String, ◌++◌, compare}
use mathlib.Core.Bool.{Bool}
use mathlib.Core.List.{List, [], ◌∷◌}
use text.Mathlib.Text.{is_lt}

unfoldable pub join : String → List String → String
join sep [] = ""
join sep (e ∷ []) = e
join sep (e ∷ f ∷ es) = e ++ (sep ++ join sep (f ∷ es))

-- strings.Compare(a, b) < 0
abbrev pub string_lt : String → String → Bool
string_lt a b = is_lt (compare a b)
