-- ===== src/ClusterVersion/Latest.antt =====
-- The update that a new job is pinned to.
use mathlib.Core.List.{Memᴰ}
use openshift_upgrade_contro.Prelude.{
  String, Option, none, sym, refl, Option-cases, true, ◌≡◌, inl, inr, Bool-cases, false, some, List,
  [], ◌∷◌, All, All-mem, subst,
}
use openshift_upgrade_contro.Prelude.Int.{ℤ}
use openshift_upgrade_contro.Prelude.Sort.{sort_by}
use openshift_upgrade_contro.Prelude.Sort.Laws.{
  IsStrictWeak, IsSorted, sort_by-IsSorted, All-sort_by, All-of_All-sort_by,
}
use openshift_upgrade_contro.Api.Upstream.{Release, ClusterVersion}
use openshift_upgrade_contro.ClusterVersion.{is_later, head?, latest_available_update}

module _ (semver_compare : String → String → ℤ) where
  head?-All :
      (P : Release → Type 0) (rs : List Release) (r : Release)
      → head? semver_compare rs ≡ some r
      → All P rs
      → P r
  head?-All P [] r h ps = cc
  head?-All P (x ∷ xs) r h ps = let e : x ≡ r = cc in subst P e ps.0

  module _ (w : IsStrictWeak (is_later semver_compare)) where
    not_later_self : (r : Release) → is_later semver_compare r r ≡ false
    not_later_self r = elim (Bool-cases (is_later semver_compare r r)) [
      | inl e ↦ w.asym r r e
      | inr e ↦ e
    ]

    head?-IsSorted :
        (rs : List Release) (r : Release)
        → head? semver_compare rs ≡ some r
        → IsSorted (is_later semver_compare) rs
        → All (λ u. is_later semver_compare u r ≡ false) rs
    head?-IsSorted [] r h s = tt
    head?-IsSorted (x ∷ xs) r h s =
        let e : x ≡ r = cc in
        subst (λ a. All (λ u. is_later semver_compare u a ≡ false) (x ∷ xs)) e
          (not_later_self x, s.0)

    -- Nothing of no updates, or one of them that none is later than.
    abbrev pub IsLatest : List Release → Option Release → Type 0
    IsLatest us none = us ≡ []
    IsLatest us (some r) = Memᴰ r us × All (λ u. is_later semver_compare u r ≡ false) us

    head_nil : (rs : List Release) → head? semver_compare rs ≡ none → rs ≡ []
    head_nil [] h = refl
    head_nil (r ∷ rs) h = cc

    All-nil : (rs : List Release) → All (λ _. false ≡ true) rs → rs ≡ []
    All-nil [] ps = refl
    All-nil (r ∷ rs) ps = let e : false ≡ true = ps.0 in cc

    sort_by-nil : (us : List Release) → sort_by (is_later semver_compare) us ≡ [] → us ≡ []
    sort_by-nil us e = All-nil us (
        All-of_All-sort_by (is_later semver_compare) (λ _. false ≡ true) us
          (subst (All (λ _. false ≡ true)) (sym e) tt))

    head_max :
        (us : List Release) (r : Release)
        → head? semver_compare (sort_by (is_later semver_compare) us) ≡ some r
        → IsLatest us (some r)
    head_max us r h = (
      head?-All (λ a. Memᴰ a us) (sort_by (is_later semver_compare) us) r h
          (All-sort_by (is_later semver_compare) (λ a. Memᴰ a us) us (All-mem us us (λ a m. m))),
      All-of_All-sort_by (is_later semver_compare) (λ u. is_later semver_compare u r ≡ false) us
          (head?-IsSorted (sort_by (is_later semver_compare) us) r h
            (sort_by-IsSorted (is_later semver_compare) w us)),
    )

    -- Where the comparison orders versions, `LatestAvailableUpdate` returns one of the available
    -- updates, and none of them is later than it; it returns nothing only without an available update.
    pub latest_available_update_is_max :
        (cv : ClusterVersion)
        → IsLatest cv.available_updates (latest_available_update semver_compare cv)
    unfolding latest_available_update
    latest_available_update_is_max cv =
        let us = cv.available_updates in
        let m = head? semver_compare (sort_by (is_later semver_compare) us) in
        elim (Option-cases m) [
          | inl e ↦ subst (IsLatest us) (sym e) (sort_by-nil us (head_nil _ e))
          | inr (r, e) ↦ subst (IsLatest us) (sym e) (head_max us r e)
        ]
