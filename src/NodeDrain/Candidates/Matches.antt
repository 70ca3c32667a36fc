-- ===== src/NodeDrain/Candidates/Matches.antt =====
-- When the loop over the results of a query in `podJQQueryMatches` says yes.
use openshift_upgrade_contro.Prelude.{◌≡◌, refl, ◌↔◌, true, false, List, [], ◌∷◌}
use openshift_upgrade_contro.NodeDrain.{Output, boolean, other, halted, query_error, any_match}
use openshift_upgrade_contro.NodeDrain.Allowed.{YieldsTrue, now, after_boolean, after_other}

any_match-true : (os : List Output) → any_match true os ≡ true
unfolding any_match
any_match-true [] = refl
any_match-true (boolean b ∷ os) = any_match-true os
any_match-true (other ∷ os) = any_match-true os
any_match-true (halted ∷ os) = refl
any_match-true (query_error ∷ os) = refl

match_yields : (os : List Output) → any_match false os ≡ true → YieldsTrue os
unfolding any_match
match_yields [] h = cc
match_yields (boolean true ∷ os) h = now os
match_yields (boolean false ∷ os) h = after_boolean false os (match_yields os h)
match_yields (other ∷ os) h = after_other os (match_yields os h)
match_yields (halted ∷ os) h = cc
match_yields (query_error ∷ os) h = cc

yields_match : (os : List Output) → YieldsTrue os → any_match false os ≡ true
unfolding any_match
yields_match _ (now os) = any_match-true os
yields_match _ (after_boolean true os y) = any_match-true os
yields_match _ (after_boolean false os y) = yields_match os y
yields_match _ (after_other os y) = yields_match os y

-- The loop over the results of a query says yes exactly if the query yields `true` before it halts or
-- fails; other values are passed over.
pub any_match-YieldsTrue : (os : List Output) → (any_match false os ≡ true) ↔ YieldsTrue os
any_match-YieldsTrue os = (match_yields os, yields_match os)
