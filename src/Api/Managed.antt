-- ===== src/Api/Managed.antt =====
-- api/v1beta1/clusterversion_types.go and upstream_cv_spec_copy.go
use openshift_upgrade_contro.Prelude.{Option, List}
use openshift_upgrade_contro.Api.Time.{Time}
use openshift_upgrade_contro.Api.Meta.{ObjectMeta}
use openshift_upgrade_contro.Api.Upstream.{Update, ClusterVersionSettings}

-- ConfigV1ClusterVersionSpec, a copy of configv1.ClusterVersionSpec.
pub record ClusterVersionSpec : Type 0 where
  pub desired_update : Option Update
  pub settings : ClusterVersionSettings

-- ClusterVersionOverlayConfig; the overlay has one field, its spec.
pub record Overlay : Type 0 where
  pub from : Time
  pub spec : ClusterVersionSpec

-- ClusterVersionStatusOverlays; the preview has one field, its spec.
pub record StatusOverlay : Type 0 where
  pub from : Time
  pub preview : ClusterVersionSpec

-- A slice that is nil is `none`, and a `from` that is not set is the zero time.
pub record ManagedStatus : Type 0 where
  pub current : ClusterVersionSpec
  pub overlays : Option (List StatusOverlay)
  pub overlay_applied : Time

-- The project's ClusterVersion. The template has one field, its spec; `overlays` is the list in the
-- spec, whose length alone is read, so a nil slice is the empty list.
pub record ManagedClusterVersion : Type 0 where
  pub meta : ObjectMeta
  pub template : ClusterVersionSpec
  pub overlays : List Overlay
  pub status : ManagedStatus
