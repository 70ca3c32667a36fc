-- ===== src/ManagedVersion/Settled.antt =====
-- What the controller sends when the cluster is as its managed version says.
use openshift_upgrade_contro.Prelude.{
  ◌≡◌, refl, Bool, true, false, ◌&&◌, Option, none, List, [], ◌∷◌, arith,
}
use openshift_upgrade_contro.Prelude.Int.{eqb_ℤ, eqb_ℤ→eq}
use openshift_upgrade_contro.Prelude.Equal.{
  Decides, eqb_option, eqb_list, option-Decides, list-Decides,
}
use openshift_upgrade_contro.Api.Time.{Time}
use openshift_upgrade_contro.Api.Upstream.{ClusterVersion}
use openshift_upgrade_contro.Api.Managed.{
  ClusterVersionSpec, Overlay, StatusOverlay, ManagedStatus, ManagedClusterVersion,
}
use openshift_upgrade_contro.ClusterVersion.Equal.{
  spec_equal_ignoring_desired_update, spec_equal_iff, eqb_spec, eqb_spec-Decides,
}
use openshift_upgrade_contro.Exec.{
  ok, History, ◌>>=◌, pure, send, context, lift, attempt, read_now, get_managed_version,
  get_cluster_version, update_managed_version_status, read_clock, match_result, when◌then◌else◌,
}
use openshift_upgrade_contro.UpgradeJob.Reconcile.{is_deleted}
use openshift_upgrade_contro.ManagedVersion.{Env}
use openshift_upgrade_contro.ManagedVersion.Overlay.{apply_overlay, next_requeue}
use openshift_upgrade_contro.ManagedVersion.Reconcile.{
  spec_of, update_status, previews, new_status, eqb_status, eqb_preview, managed_key,
  reconcile_version, reconcile,
}

eqb_ℤ_refl : (t : Time) → eqb_ℤ t t ≡ true
eqb_ℤ_refl t = ground arith

preview_sound : (a b : StatusOverlay) → eqb_preview a b ≡ true → a ≡ b
preview_sound a b h =
    let p : a.from ≡ b.from = eqb_ℤ→eq a.from b.from (ground arith) in
    let q : a.preview ≡ b.preview = eqb_spec-Decides.sound a.preview b.preview (ground arith) in cc

preview-Decides : Decides eqb_preview
preview-Decides = record {
  sound = preview_sound;
  reflexive = λ a. rw (eqb_ℤ_refl a.from) (eqb_spec-Decides.reflexive a.preview);
}

previews-Decides : Decides (eqb_option (eqb_list eqb_preview))
previews-Decides = option-Decides (eqb_list eqb_preview) (list-Decides eqb_preview preview-Decides)

eqb_status_refl : (s : ManagedStatus) → eqb_status s s ≡ true
unfolding eqb_status
eqb_status_refl s =
    rw (eqb_spec-Decides.reflexive s.current)
      (rw (previews-Decides.reflexive s.overlays) (eqb_ℤ_refl s.overlay_applied))

no_list_differs :
    (s : ManagedStatus) (spec : ClusterVersionSpec)
    → s.overlays ≡ none
    → eqb_status s (new_status none spec []) ≡ false
unfolding eqb_status
no_list_differs s spec f = rw f (and_false (eqb_spec s.current spec))
  where
    and_false : (b : Bool) → b && false ≡ false
    and_false true = refl
    and_false false = refl

module _ (env : Env) where
  previews-no_overlays :
      (template : ClusterVersionSpec) (os : List Overlay)
      → os ≡ []
      → previews env template os ≡ ok []
  unfolding previews
  previews-no_overlays template os e = rw e refl

  -- A version without overlays whose status came back without a list, as the API encodes an empty one,
  -- has its status written again, although nothing in it would change.
  pub update_status-no_overlays :
      (spec : ClusterVersionSpec) (version : ManagedClusterVersion) (h : History)
      → version.overlays ≡ []
      → version.status.overlays ≡ none
      → (update_status env none spec version h).1
        ≡ update_managed_version_status (record version { status = new_status none spec [] }) ∷ h
  unfolding update_status ◌>>=◌ context lift send when◌then◌else◌
  update_status-no_overlays spec version h e f =
      rw (previews-no_overlays version.template version.overlays e)
        (rw (no_list_differs version.status spec f) refl)

  module _ (h : History) where
    abbrev after_reads : History
    after_reads =
        get_cluster_version env.upstream_name
        ∷ get_managed_version (managed_key env)
        ∷ read_clock
        ∷ h

    -- A cluster version whose settings are those of the template with the overlay in force, and a status
    -- that says so, are not written: the reconciliation only reads, and asks to be called again at the
    -- start of the next overlay.
    pub reconcile_settled :
        (version : ManagedClusterVersion) (cv : ClusterVersion) (used : Option Overlay)
        (spec : ClusterVersionSpec) (ps : List StatusOverlay)
        → env.server (read_clock ∷ h) (get_managed_version (managed_key env)) ≡ ok version
        → is_deleted version.meta ≡ false
        → env.server
            (get_managed_version (managed_key env) ∷ read_clock ∷ h)
            (get_cluster_version env.upstream_name)
          ≡ ok cv
        → apply_overlay env version.template version.overlays (env.clock h) ≡ ok (used, spec)
        → previews env version.template version.overlays ≡ ok ps
        → version.status ≡ new_status used spec ps
        → spec.settings ≡ cv.settings
        → reconcile env h ≡ (ok (next_requeue version.overlays (env.clock h)), after_reads)
    unfolding reconcile reconcile_version update_status ◌>>=◌ context lift send attempt read_now
        match_result when◌then◌else◌ pure
    reconcile_settled version cv used spec ps e1 e2 e3 e4 e5 e6 e7 =
        let se : eqb_status version.status (new_status used spec ps) ≡ true =
          rw (← e6) (eqb_status_refl version.status) in
        let ce : spec_equal_ignoring_desired_update spec (spec_of cv) ≡ true =
          (spec_equal_iff spec (spec_of cv)).1 e7 in
        rw e1 (rw e2 (rw e3 (rw e4 (rw e5 (rw se (rw ce refl))))))
