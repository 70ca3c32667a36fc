-- ===== src/ManagedVersion/Laws.antt =====
-- What the controller writes.
use openshift_upgrade_contro.Prelude.{◌≡◌, refl, subst, false, Option, All}
use openshift_upgrade_contro.Api.Time.{Time}
use openshift_upgrade_contro.Api.Upstream.{ClusterVersion}
use openshift_upgrade_contro.Api.Managed.{ClusterVersionSpec, Overlay, ManagedClusterVersion}
use openshift_upgrade_contro.ClusterVersion.Equal.{spec_equal_ignoring_desired_update}
use openshift_upgrade_contro.Exec.{
  ok, err, History, Request, Result, M, pure, raise, get_managed_version, get_cluster_version,
  update_managed_version_status, update_cluster_version, match_result, when◌then◌else◌,
}
use openshift_upgrade_contro.Exec.Triple.{
  Triple, Any, Holds-Any, Holds-shown, Triple-pure, Triple-raise, Triple-bind, Triple-when,
  Triple-attempt-send, Triple-context, Triple-lift, Triple-send_shown, Triple-send-Any,
  Triple-read_now_shown,
}
use openshift_upgrade_contro.UpgradeJob.Status.{no_requeue}
use openshift_upgrade_contro.UpgradeJob.Track.{is_not_found}
use openshift_upgrade_contro.ManagedVersion.{Env}
use openshift_upgrade_contro.ManagedVersion.Overlay.Laws.{
  Chooses, IsOverlaid, apply_overlay-Chooses,
}
use openshift_upgrade_contro.ManagedVersion.Reconcile.{
  spec_of, update_status, with_settings, managed_key, reconcile_version, reconcile,
}

module _ (env : Env) where
  -- A version that is written: the one that the server gave, with the settings of the template and the
  -- overlay in force at an instant that the clock shows.
  pub record IsOverlaidVersion (cv : ClusterVersion) : Type 0 where
    pub at : History
    pub old : ClusterVersion
    pub shown : env.server at (get_cluster_version env.upstream_name) ≡ ok old
    pub managed_at : History
    pub version : ManagedClusterVersion
    pub managed_shown : env.server managed_at (get_managed_version (managed_key env)) ≡ ok version
    pub clock_at : History
    pub used : Option Overlay
    pub spec : ClusterVersionSpec
    pub chosen : Chooses (env.clock clock_at) version.overlays used
    pub overlaid : IsOverlaid env version.template used spec
    pub kept_meta : cv.meta ≡ old.meta
    pub kept_update : cv.desired_update ≡ old.desired_update
    pub written : cv ≡ record old { settings = spec.settings }
    pub differs : spec_equal_ignoring_desired_update spec (spec_of old) ≡ false

  abbrev pub WritesOverlaid : Request → Type 0
  WritesOverlaid (update_cluster_version cv) = IsOverlaidVersion cv
  WritesOverlaid _ = Unit

  abbrev Keeps : {A : Type 0} → M A → (A → Type 0) → Type 0
  Keeps m Q = Triple (All WritesOverlaid) m Q

  update_status-Keeps :
      (used : Option Overlay) (spec : ClusterVersionSpec) (version : ManagedClusterVersion)
      → Keeps (update_status env used spec version) Any
  unfolding update_status
  update_status-Keeps used spec version =
      Triple-bind Any _ _ (Triple-context _ _ (Triple-lift _ (Holds-Any _))) (λ ps _.
        Triple-when _ _ _
          (λ _.
            Triple-context _ _
              (Triple-send-Any env.server (update_managed_version_status _) (λ h p. (tt, p))))
          (λ _. Triple-pure _ tt))

  abbrev IsShown : ManagedClusterVersion → Type 0
  IsShown version =
      (h : History) × (env.server h (get_managed_version (managed_key env)) ≡ ok version)

  reconcile_version-Keeps :
      (now : Time)
      → ((h : History) × (now ≡ env.clock h))
      → (version : ManagedClusterVersion) → IsShown version
      → Keeps (reconcile_version env now version) Any
  unfolding reconcile_version
  reconcile_version-Keeps now clock version managed =
      Triple-when _ _ _ (λ _. Triple-pure _ tt)
        (λ _.
          Triple-bind _ _ _
            (Triple-context _ _
              (Triple-send_shown env.server (get_cluster_version _) (λ h p. (tt, p))))
            (λ cv shown.
              Triple-bind _ _ _ (Triple-context _ _ (Triple-lift _ (Holds-shown _))) (λ used e.
                let (chosen, overlaid) =
                  apply_overlay-Chooses env version.template used.1 version.overlays now used.0 e in
                Triple-bind Any _ _ (Triple-context _ _ (update_status-Keeps used.0 used.1 version))
                  (λ version' _.
                    Triple-when _ _ _ (λ _. Triple-pure _ tt)
                      (λ differs.
                        let written : IsOverlaidVersion (with_settings cv used.1) = record {
                          at = shown.0;
                          old = cv;
                          shown = shown.1;
                          managed_at = managed.0;
                          version = version;
                          managed_shown = managed.1;
                          clock_at = clock.0;
                          used = used.0;
                          spec = used.1;
                          chosen = subst (λ t. Chooses t version.overlays used.0) clock.1 chosen;
                          overlaid = overlaid;
                          kept_meta = refl;
                          kept_update = refl;
                          written = refl;
                          differs = differs;
                        } in
                        Triple-bind Any _ _
                          (Triple-context _ _ (
                            Triple-send-Any env.server (update_cluster_version _)
                              (λ h p. (written, p))))
                          (λ _ _. Triple-pure _ tt))))))

  found-Keeps :
      (now : Time)
      → ((h : History) × (now ≡ env.clock h))
      → (r : Result ManagedClusterVersion)
      → ((h : History) × (env.server h (get_managed_version (managed_key env)) ≡ r))
      → Keeps
          (match_result r
            (λ e. when is_not_found e then pure no_requeue else raise e)
            (reconcile_version env now))
          Any
  unfolding match_result
  found-Keeps now clock (ok version) shown = reconcile_version-Keeps now clock version shown
  found-Keeps now clock (err e) shown =
      Triple-when _ _ _ (λ _. Triple-pure _ tt) (λ _. Triple-raise _)

  -- Whatever the server answers, a cluster version is written only as follows, if that held of the
  -- requests before. It is the version that the server gave, with its metadata and its desired update, and
  -- with settings that differ from its own: those of the template, with the overlay merged into it that
  -- is in force at an instant that the clock shows.
  pub reconcile-WritesOverlaid :
      (h : History) → All WritesOverlaid h → All WritesOverlaid (reconcile env h).1
  unfolding reconcile
  reconcile-WritesOverlaid h p =
      let t : Keeps (reconcile env) Any =
        Triple-bind _ _ _ (Triple-read_now_shown env.clock (λ h p. (tt, p))) (λ now clock.
          Triple-bind _ _ _
            (Triple-attempt-send env.server (get_managed_version _) (λ h p. (tt, p)))
            (λ r shown. found-Keeps now clock r shown)) in
      (t.at h p).0
