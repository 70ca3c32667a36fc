-- ===== src/ClusterVersion/Equal.antt =====
-- `SpecEqualIgnoringDesiredUpdate`, with `reflect.DeepEqual` on the specs written out.
use openshift_upgrade_contro.Prelude.{
  String, str_eq, eq_refl, eq_iff, ◌≡◌, refl, ◌↔◌, Bool, true, false, ◌&&◌, Option, none, List,
  arith,
}
use openshift_upgrade_contro.Prelude.Equal.{
  eqb_bool, eqb_option, eqb_list, Decides, option-Decides, list-Decides, string-Decides,
}
use openshift_upgrade_contro.Api.Upstream.{
  Update, Capabilities, SignatureStore, ComponentOverride, ClusterVersionSettings,
}
use openshift_upgrade_contro.Api.Managed.{ClusterVersionSpec}

abbrev strings_equal : Option (List String) → Option (List String) → Bool
strings_equal a b = eqb_option (eqb_list str_eq) a b

abbrev eqb_capabilities : Capabilities → Capabilities → Bool
eqb_capabilities a b =
    str_eq a.baseline_capability_set b.baseline_capability_set
    && strings_equal a.additional_enabled_capabilities b.additional_enabled_capabilities

abbrev eqb_store : SignatureStore → SignatureStore → Bool
eqb_store a b = str_eq a.url b.url && str_eq a.ca b.ca

abbrev eqb_override : ComponentOverride → ComponentOverride → Bool
eqb_override a b =
    str_eq a.kind b.kind
    && (str_eq a.group b.group
        && (str_eq a.namespace b.namespace
            && (str_eq a.name b.name && eqb_bool a.unmanaged b.unmanaged)))

abbrev eqb_update : Update → Update → Bool
eqb_update a b =
    str_eq a.architecture b.architecture
    && (str_eq a.version b.version && (str_eq a.image b.image && eqb_bool a.force b.force))

abbrev eqb_settings : ClusterVersionSettings → ClusterVersionSettings → Bool
eqb_settings a b =
    str_eq a.cluster_id b.cluster_id
    && (str_eq a.upstream b.upstream
        && (str_eq a.channel b.channel
            && (eqb_option eqb_capabilities a.capabilities b.capabilities
                && (eqb_option (eqb_list eqb_store) a.signature_stores b.signature_stores
                    && eqb_option (eqb_list eqb_override) a.overrides b.overrides))))

-- reflect.DeepEqual
unfoldable pub eqb_spec : ClusterVersionSpec → ClusterVersionSpec → Bool
eqb_spec a b =
    eqb_option eqb_update a.desired_update b.desired_update && eqb_settings a.settings b.settings

abbrev pub without_desired_update : ClusterVersionSpec → ClusterVersionSpec
without_desired_update a = record a { desired_update = none }

unfoldable pub spec_equal_ignoring_desired_update : ClusterVersionSpec → ClusterVersionSpec → Bool
unfolding eqb_spec
spec_equal_ignoring_desired_update a b =
    eqb_spec (without_desired_update a) (without_desired_update b)

and_true : (a b : Bool) → a && b ≡ true → (a ≡ true) × (b ≡ true)
and_true a b h = (ground arith, ground arith)

text : (a b : String) → str_eq a b ≡ true → a ≡ b
text a b h = (eq_iff a b).0 h

bool-Decides : Decides eqb_bool
bool-Decides = record { sound = λ a b h. bool_sound a b h; reflexive = bool_reflexive }
  where
    bool_sound : (a b : Bool) → eqb_bool a b ≡ true → a ≡ b
    bool_sound true true h = refl
    bool_sound true false h = cc
    bool_sound false true h = cc
    bool_sound false false h = refl

    bool_reflexive : (a : Bool) → eqb_bool a a ≡ true
    bool_reflexive true = refl
    bool_reflexive false = refl

strings-Decides : Decides strings_equal
strings-Decides = option-Decides (eqb_list str_eq) (list-Decides str_eq string-Decides)

eqb_capabilities-Decides : Decides eqb_capabilities
eqb_capabilities-Decides = record {
  sound = λ a b h.
      let p0 : a.baseline_capability_set ≡ b.baseline_capability_set =
        text a.baseline_capability_set b.baseline_capability_set (ground arith) in
      let p1 : a.additional_enabled_capabilities ≡ b.additional_enabled_capabilities =
        strings-Decides.sound a.additional_enabled_capabilities b.additional_enabled_capabilities
          (ground arith) in
      cc;
  reflexive = λ a.
      rw (eq_refl a.baseline_capability_set)
        (strings-Decides.reflexive a.additional_enabled_capabilities);
}

eqb_store-Decides : Decides eqb_store
eqb_store-Decides = record {
  sound = λ a b h. grind (arith, eq_iff);
  reflexive = λ a. rw (eq_refl a.url) (eq_refl a.ca);
}

eqb_override-Decides : Decides eqb_override
eqb_override-Decides = record {
  sound = λ a b h.
      let p0 : a.kind ≡ b.kind = text a.kind b.kind (ground arith) in
      let p1 : a.group ≡ b.group = text a.group b.group (ground arith) in
      let p2 : a.namespace ≡ b.namespace = text a.namespace b.namespace (ground arith) in
      let p3 : a.name ≡ b.name = text a.name b.name (ground arith) in
      let p4 : a.unmanaged ≡ b.unmanaged =
        bool-Decides.sound a.unmanaged b.unmanaged (ground arith) in
      cc;
  reflexive = λ a. rw (eq_refl a.kind) (
      rw (eq_refl a.group)
        (rw (eq_refl a.namespace) (rw (eq_refl a.name) (bool-Decides.reflexive a.unmanaged))));
}

eqb_update-Decides : Decides eqb_update
eqb_update-Decides = record {
  sound = λ a b h.
      let p0 : a.architecture ≡ b.architecture =
        text a.architecture b.architecture (ground arith) in
      let p1 : a.version ≡ b.version = text a.version b.version (ground arith) in
      let p2 : a.image ≡ b.image = text a.image b.image (ground arith) in
      let p3 : a.force ≡ b.force = bool-Decides.sound a.force b.force (ground arith) in cc;
  reflexive = λ a.
      rw (eq_refl a.architecture)
        (rw (eq_refl a.version) (rw (eq_refl a.image) (bool-Decides.reflexive a.force)));
}

capabilities-Decides : Decides (eqb_option eqb_capabilities)
capabilities-Decides = option-Decides eqb_capabilities eqb_capabilities-Decides

stores-Decides : Decides (eqb_option (eqb_list eqb_store))
stores-Decides = option-Decides (eqb_list eqb_store) (list-Decides eqb_store eqb_store-Decides)

overrides-Decides : Decides (eqb_option (eqb_list eqb_override))
overrides-Decides =
    option-Decides (eqb_list eqb_override) (list-Decides eqb_override eqb_override-Decides)

eqb_settings-Decides : Decides eqb_settings
eqb_settings-Decides = record {
  sound = λ a b h.
      let p0 : a.cluster_id ≡ b.cluster_id = text a.cluster_id b.cluster_id (ground arith) in
      let p1 : a.upstream ≡ b.upstream = text a.upstream b.upstream (ground arith) in
      let p2 : a.channel ≡ b.channel = text a.channel b.channel (ground arith) in
      let p3 : a.capabilities ≡ b.capabilities =
        capabilities-Decides.sound a.capabilities b.capabilities (ground arith) in
      let p4 : a.signature_stores ≡ b.signature_stores =
        stores-Decides.sound a.signature_stores b.signature_stores (ground arith) in
      let p5 : a.overrides ≡ b.overrides =
        overrides-Decides.sound a.overrides b.overrides (ground arith) in
      cc;
  reflexive = λ a. rw (eq_refl a.cluster_id) (
      rw (eq_refl a.upstream) (
        rw (eq_refl a.channel) (
          rw (capabilities-Decides.reflexive a.capabilities) (
            rw (stores-Decides.reflexive a.signature_stores)
              (overrides-Decides.reflexive a.overrides)))));
}

update-Decides : Decides (eqb_option eqb_update)
update-Decides = option-Decides eqb_update eqb_update-Decides

pub eqb_spec-Decides : Decides eqb_spec
unfolding eqb_spec
eqb_spec-Decides = record {
  sound = λ a b h.
      let p0 : a.desired_update ≡ b.desired_update =
        update-Decides.sound a.desired_update b.desired_update (ground arith) in
      let p1 : a.settings ≡ b.settings =
        eqb_settings-Decides.sound a.settings b.settings (ground arith) in
      cc;
  reflexive = λ a.
      rw (update-Decides.reflexive a.desired_update) (eqb_settings-Decides.reflexive a.settings);
}

-- Two specs are found equal exactly if all of their fields but the desired update are equal.
pub spec_equal_iff :
    (a b : ClusterVersionSpec)
    → (spec_equal_ignoring_desired_update a b ≡ true) ↔ (a.settings ≡ b.settings)
unfolding spec_equal_ignoring_desired_update eqb_spec
spec_equal_iff a b = (
  (λ h. eqb_settings-Decides.sound a.settings b.settings h),
  (λ e. rw e (eqb_settings-Decides.reflexive b.settings)),
)
