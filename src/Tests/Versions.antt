-- ===== src/Tests/Versions.antt =====
-- The theorems on the managed cluster version, at a version with two overlays.
use openshift_upgrade_contro.Prelude.{
  ◌≡◌, refl, ◌↔◌, Bool, true, false, Option, none, some, List, [], ◌∷◌, All, arith,
}
use openshift_upgrade_contro.Prelude.Int.{pos, ◌+ℤ◌}
use openshift_upgrade_contro.Api.Time.{Time, zero_time}
use openshift_upgrade_contro.Api.Upstream.{ClusterVersion}
use openshift_upgrade_contro.Api.Managed.{
  ClusterVersionSpec, Overlay, StatusOverlay, ManagedStatus, ManagedClusterVersion,
}
use openshift_upgrade_contro.ClusterVersion.Equal.{
  spec_equal_ignoring_desired_update, spec_equal_iff,
}
use openshift_upgrade_contro.Exec.{
  ok, Server, get_managed_version, get_cluster_version, update_managed_version_status, read_clock,
}
use openshift_upgrade_contro.ManagedVersion.{Env}
use openshift_upgrade_contro.ManagedVersion.Overlay.{used_overlay, next_requeue, apply_overlay}
use openshift_upgrade_contro.ManagedVersion.Overlay.Laws.{
  Chooses, IsOverlaid, apply_overlay-Chooses,
}
use openshift_upgrade_contro.ManagedVersion.Overlay.Stable.{next_requeue-used_overlay}
use openshift_upgrade_contro.ManagedVersion.Reconcile.{
  previews, new_status, update_status, managed_key, reconcile,
}
use openshift_upgrade_contro.ManagedVersion.Laws.{WritesOverlaid, reconcile-WritesOverlaid}
use openshift_upgrade_contro.ManagedVersion.Settled.{update_status-no_overlays, reconcile_settled}
use openshift_upgrade_contro.Tests.Fixtures.{server, meta_of, cluster_version, settings_of}

abbrev spec_of_channel : openshift_upgrade_contro.Prelude.String → ClusterVersionSpec
spec_of_channel c = record { desired_update = none; settings = settings_of c }

abbrev overlay_at : Time → openshift_upgrade_contro.Prelude.String → Overlay
overlay_at t c = record { from = t; spec = spec_of_channel c }

-- The later overlay stands first.
abbrev overlays : List Overlay
overlays = overlay_at (pos 90) "stable-4.12" ∷ overlay_at (pos 40) "eus-4.12" ∷ []

abbrev status : ManagedStatus
status = record { current = spec_of_channel ""; overlays = none; overlay_applied = zero_time }

abbrev version : ManagedClusterVersion
version = record {
  meta = meta_of "appuio" "version";
  template = spec_of_channel "stable-4.11";
  overlays = overlays;
  status = status;
}

abbrev version_server : Server
version_server h (get_managed_version _) = ok version
version_server h r = server h r

-- An overlay replaces the whole spec.
abbrev env_of : Server → Env
env_of s = record {
  server = s;
  clock = λ h. pos 50;
  upstream_name = "version";
  managed_name = "version";
  managed_namespace = "appuio";
  merge = λ a b. ok b;
}

abbrev version_env : Env
version_env = env_of version_server

reconcile-WritesOverlaid_example : All (WritesOverlaid version_env) (reconcile version_env []).1
reconcile-WritesOverlaid_example = reconcile-WritesOverlaid version_env [] tt

abbrev used : Overlay
used = overlay_at (pos 40) "eus-4.12"

applied :
    apply_overlay version_env version.template overlays (pos 50)
    ≡ ok (some used, spec_of_channel "eus-4.12")
unfolding apply_overlay used_overlay
applied = refl

apply_overlay-Chooses_example :
    Chooses (pos 50) overlays (some used)
    × IsOverlaid version_env version.template (some used) (spec_of_channel "eus-4.12")
apply_overlay-Chooses_example =
    apply_overlay-Chooses version_env version.template (spec_of_channel "eus-4.12") overlays
      (pos 50) (some used) applied

next_requeue-used_overlay_example : used_overlay overlays (pos 89) ≡ used_overlay overlays (pos 50)
unfolding next_requeue ◌+ℤ◌
next_requeue-used_overlay_example =
    next_requeue-used_overlay (pos 50) (pos 89) (omega arith) overlays (λ h. omega arith)

spec_equal_iff_example :
    (spec_equal_ignoring_desired_update (spec_of_channel "a") (spec_of_channel "b") ≡ true)
    ↔ (settings_of "a" ≡ settings_of "b")
spec_equal_iff_example = spec_equal_iff (spec_of_channel "a") (spec_of_channel "b")

abbrev plain_version : ManagedClusterVersion
plain_version = record version { overlays = [] }

update_status-no_overlays_example :
    (update_status version_env none (spec_of_channel "stable-4.11") plain_version []).1
    ≡ update_managed_version_status
        (record plain_version { status = new_status none (spec_of_channel "stable-4.11") [] })
      ∷ []
update_status-no_overlays_example =
    update_status-no_overlays version_env (spec_of_channel "stable-4.11") plain_version [] refl refl

-- The cluster and the status are as the version says.
abbrev preview_of : Overlay → StatusOverlay
preview_of o = record { from = o.from; preview = o.spec }

abbrev all_previews : List StatusOverlay
all_previews =
    preview_of (overlay_at (pos 90) "stable-4.12")
    ∷ preview_of (overlay_at (pos 40) "eus-4.12")
    ∷ []

abbrev settled_version : ManagedClusterVersion
settled_version = record version {
  status = new_status (some used) (spec_of_channel "eus-4.12") all_previews;
}

abbrev settled_cluster : ClusterVersion
settled_cluster = record cluster_version { settings = settings_of "eus-4.12" }

abbrev settled_server : Server
settled_server h (get_managed_version _) = ok settled_version
settled_server h (get_cluster_version _) = ok settled_cluster
settled_server h r = server h r

reconcile_settled_example : reconcile (env_of settled_server) [] ≡ (
  ok (next_requeue overlays (pos 50)),
  get_cluster_version "version"
      ∷ get_managed_version (managed_key (env_of settled_server))
      ∷ read_clock
      ∷ [],
)
unfolding apply_overlay used_overlay previews
reconcile_settled_example =
    reconcile_settled (env_of settled_server) [] settled_version settled_cluster (some used)
      (spec_of_channel "eus-4.12") all_previews refl refl refl refl refl refl refl
