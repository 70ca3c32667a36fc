-- ===== src/ManagedVersion/Overlay.antt =====
-- `applyOverlay` and `nextRequeue`. `return o, *b, mergo.Merge(b, …)` reads `*b` after the merge, as the Go
-- compiler orders it; the language leaves that order open.

pub mod Laws
pub mod Stable
use mathlib.Core.List.{reverse}
use openshift_upgrade_contro.Prelude.{
  Bool, true, false, ◌||◌, not, Option, none, some, List, find_first, if◌then◌else◌,
}
use openshift_upgrade_contro.Prelude.Sort.{sort_by}
use openshift_upgrade_contro.Api.Time.{Time, before, equal, sub_time}
use openshift_upgrade_contro.Api.Managed.{ClusterVersionSpec, Overlay}
use openshift_upgrade_contro.Exec.{Result, ok, err, option_case}
use openshift_upgrade_contro.UpgradeJob.Status.{Outcome, no_requeue}
use openshift_upgrade_contro.ManagedVersion.{Env}

-- The comparison of sortOverlaysByFrom is negative.
unfoldable pub comes_first : Overlay → Overlay → Bool
comes_first a b = if equal a.from b.from then false else before a.from b.from

unfoldable pub sort_overlays_by_from : List Overlay → List Overlay
unfolding sort_by comes_first
sort_overlays_by_from os = sort_by comes_first os

-- The loop of applyOverlay, over the overlays in reverse.
unfoldable pub used_overlay : List Overlay → Time → Option Overlay
unfolding sort_overlays_by_from
used_overlay overlays now =
    find_first (λ (o : Overlay). not (before now o.from)) (reverse (sort_overlays_by_from overlays))

-- The loop of nextRequeue.
unfoldable pub next_overlay : List Overlay → Time → Option Overlay
unfolding sort_overlays_by_from
next_overlay overlays now =
    find_first (λ (o : Overlay). not (before o.from now || equal o.from now))
      (sort_overlays_by_from overlays)

unfoldable pub next_requeue : List Overlay → Time → Outcome
unfolding next_overlay sub_time
next_requeue overlays now =
    option_case (next_overlay overlays now) no_requeue
      (λ o. record { requeue = true; requeue_after = sub_time o.from now })

module _ (env : Env) where
  -- The overlay that is used, and the spec.
  unfoldable pub apply_overlay :
      ClusterVersionSpec → List Overlay → Time → Result (Option Overlay × ClusterVersionSpec)
  apply_overlay base overlays now = elim (used_overlay overlays now) [
    | none ↦ ok (none, base)
    | some o ↦ elim (env.merge base o.spec) [ ok spec ↦ ok (some o, spec) | err e ↦ err e ]
  ]
