-- ===== src/NodeDrain/Queries.antt =====
-- The results of a query by gojq, and the loop of `podJQQueryMatches` over them.
use openshift_upgrade_contro.Prelude.{Bool, ◌||◌, List, [], ◌∷◌}
use openshift_upgrade_contro.Json.{Json}
use openshift_upgrade_contro.Exec.{M, History, ok}

-- What an iterator of gojq yields: a Boolean, another value, `halt`, or an error.
pub data Output : Type 0 where
  boolean : Bool → Output
  other halted query_error : Output

-- A parsed query. How far it gets within its five seconds may differ between runs.
abbrev pub Query : Type 0
Query = History → Json → List Output

-- podJQQuery.RunWithContext
unfoldable pub run_query : Query → Json → M (List Output)
run_query q json h = (ok (q h json), h)

-- The loop, with `matches` so far.
unfoldable pub any_match : Bool → List Output → Bool
any_match matches [] = matches
any_match matches (boolean b ∷ os) = any_match (matches || b) os
any_match matches (other ∷ os) = any_match matches os
any_match matches (halted ∷ os) = matches
any_match matches (query_error ∷ os) = matches
