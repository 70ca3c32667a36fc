-- ===== src/ClusterVersion.antt =====
-- pkg/clusterversion/clusterversion.go: what the updates and the history of a cluster version say.
-- The comparison of golang.org/x/mod/semver is a parameter.
pub mod Latest
pub mod Equal
use openshift_upgrade_contro.Prelude.{
  String, ◌<>◌, ◌&&◌, Bool, true, Option, none, some, List, [], ◌∷◌, str_eq, any_of, find_first,
}
use openshift_upgrade_contro.Prelude.Int.{ℤ, pos, ltb_ℤ}
use openshift_upgrade_contro.Prelude.Sort.{sort_by}
use openshift_upgrade_contro.Api.Upstream.{
  Update, Release, UpdateState, completed_update, UpdateHistory, ClusterVersion,
}

abbrev is_completed : UpdateState → Bool
is_completed completed_update = true
is_completed _ = Bool.false

unfoldable pub is_version_upgrade_completed : ClusterVersion → Bool
is_version_upgrade_completed cv = elim cv.desired_update [
  | none ↦ true
  | some d ↦
      any_of
        (λ (v : UpdateHistory).
          is_completed v.state && (str_eq v.image d.image && str_eq v.version d.version))
        cv.history
]

unfoldable pub find_available_update : ClusterVersion → String → String → Option Release
find_available_update cv image version =
    find_first (λ (u : Release). str_eq u.version version && str_eq u.image image)
      cv.available_updates

module _ (semver_compare : String → String → ℤ) where
  -- The order in which the updates are sorted: the latest first.
  abbrev pub is_later : Release → Release → Bool
  is_later a b = ltb_ℤ (pos 0) (semver_compare ("v" <> a.version) ("v" <> b.version))

  abbrev pub head? : List Release → Option Release
  head? [] = none
  head? (r ∷ rs) = some r

  unfoldable pub latest_available_update : ClusterVersion → Option Release
  latest_available_update cv = head? (sort_by is_later cv.available_updates)
