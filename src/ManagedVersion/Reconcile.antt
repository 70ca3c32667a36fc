-- ===== src/ManagedVersion/Reconcile.antt =====
-- `Reconcile`, `updateStatus` and `Filter` of the cluster version controller.
use openshift_upgrade_contro.Prelude.{
  str_eq, Bool, false, ◌&&◌, not, Option, some, List, [], ◌∷◌, if◌then◌else◌,
}
use openshift_upgrade_contro.Prelude.Int.{eqb_ℤ}
use openshift_upgrade_contro.Prelude.Equal.{eqb_option, eqb_list}
use openshift_upgrade_contro.Api.Time.{Time, zero_time}
use openshift_upgrade_contro.Api.Meta.{ObjectMeta, NamespacedName}
use openshift_upgrade_contro.Api.Upstream.{ClusterVersion}
use openshift_upgrade_contro.Api.Managed.{
  ClusterVersionSpec, Overlay, StatusOverlay, ManagedStatus, ManagedClusterVersion,
}
use openshift_upgrade_contro.ClusterVersion.Equal.{eqb_spec, spec_equal_ignoring_desired_update}
use openshift_upgrade_contro.Exec.{
  Result, ok, err, M, ◌>>=◌, ◌>>◌, pure, raise, lift, attempt, context, send, read_now,
  get_managed_version, get_cluster_version, update_managed_version_status, update_cluster_version,
  option_case, match_result, when◌then◌else◌,
}
use openshift_upgrade_contro.UpgradeJob.Status.{Outcome, no_requeue}
use openshift_upgrade_contro.UpgradeJob.Reconcile.{is_deleted}
use openshift_upgrade_contro.UpgradeJob.Track.{is_not_found}
use openshift_upgrade_contro.ManagedVersion.{Env}
use openshift_upgrade_contro.ManagedVersion.Overlay.{apply_overlay, next_requeue}

abbrev pub spec_of : ClusterVersion → ClusterVersionSpec
spec_of cv = record { desired_update = cv.desired_update; settings = cv.settings }

abbrev pub eqb_preview : StatusOverlay → StatusOverlay → Bool
eqb_preview a b = eqb_ℤ a.from b.from && eqb_spec a.preview b.preview

-- reflect.DeepEqual on the status
unfoldable pub eqb_status : ManagedStatus → ManagedStatus → Bool
unfolding eqb_spec
eqb_status a b =
    eqb_spec a.current b.current
    && (eqb_option (eqb_list eqb_preview) a.overlays b.overlays
        && eqb_ℤ a.overlay_applied b.overlay_applied)

-- The object that an event is about.
pub data Watched : Type 0 where
  managed upstream : ObjectMeta → Watched
  another : Watched

abbrev pub new_status : Option Overlay → ClusterVersionSpec → List StatusOverlay → ManagedStatus
new_status used current ps = record {
  current = current;
  overlays = some ps;
  overlay_applied = option_case used zero_time (λ (o : Overlay). o.from);
}

-- `upstream.Spec = spec`, with the desired update that it had.
abbrev pub with_settings : ClusterVersion → ClusterVersionSpec → ClusterVersion
with_settings cv spec = record cv { settings = spec.settings }

module _ (env : Env) where
  unfoldable pub filter : Watched → Bool
  filter (managed m) = str_eq env.managed_name m.name && str_eq env.managed_namespace m.namespace
  filter (upstream m) = str_eq env.upstream_name m.name
  filter another = false

  -- The loop over the overlays.
  unfoldable pub previews : ClusterVersionSpec → List Overlay → Result (List StatusOverlay)
  previews template [] = ok []
  previews template (o ∷ os) = elim (env.merge template o.spec) [
    | err e ↦ err e
    | ok spec ↦ elim (previews template os) [
      | err e ↦ err e
      | ok ps ↦ ok (record { from = o.from; preview = spec } ∷ ps)
    ]
  ]

  unfoldable pub update_status :
      Option Overlay → ClusterVersionSpec → ManagedClusterVersion → M ManagedClusterVersion
  update_status used current version = do
    ps ←
        context "failed to apply overlay for status"
          (lift (previews version.template version.overlays))
    when not (eqb_status version.status (new_status used current ps))
        then context "failed to update status" (
            send env.server (
              update_managed_version_status
                (record version { status = new_status used current ps })))
        else pure version

  unfoldable pub reconcile_version : Time → ManagedClusterVersion → M Outcome
  reconcile_version now version = when is_deleted version.meta then pure no_requeue else (do
    cv ←
        context "failed to get upstream cluster version"
          (send env.server (get_cluster_version env.upstream_name))
    used ←
        context "failed to apply overlay"
          (lift (apply_overlay env version.template version.overlays now))
    version' ← context "failed to update status" (update_status used.0 used.1 version)
    when spec_equal_ignoring_desired_update used.1 (spec_of cv)
        then pure (next_requeue version'.overlays now)
        else (do
          context "failed to update cluster version"
              (send env.server (update_cluster_version (with_settings cv used.1)))
          pure (next_requeue version'.overlays now)))

  abbrev pub managed_key : NamespacedName
  managed_key = record { namespace = env.managed_namespace; name = env.managed_name }

  unfoldable pub reconcile : M Outcome
  reconcile = do
    now ← read_now env.clock
    r ← attempt (send env.server (get_managed_version managed_key))
    match_result r (λ e. when is_not_found e then pure no_requeue else raise e)
        (reconcile_version now)
