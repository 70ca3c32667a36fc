-- ===== src/UpgradeJob/Env.antt =====
-- The fields of the `UpgradeJobReconciler`, and the libraries that it calls: apimeta's status
-- conditions, label selectors, finalizers, owner references, formatting, JSON and SHA-256.
use openshift_upgrade_contro.Prelude.{
  String, Bool, true, false, ◌≡◌, Option, none, some, List, str_eq, if◌then◌else◌,
}
use openshift_upgrade_contro.Prelude.Dict.{Dict}
use openshift_upgrade_contro.Api.Time.{Time, Duration}
use openshift_upgrade_contro.Api.Meta.{
  ConditionStatus, status_true, status_false, status_unknown, Condition, ObjectMeta, LabelSelector,
  is_true,
}
use openshift_upgrade_contro.Api.Job.{UpgradeJob}
use openshift_upgrade_contro.Exec.{Server, Clock, Result, option_case}
use openshift_upgrade_contro.Json.{Json, Fields}

-- k8s.io/apimachinery/pkg/api/meta
pub record Apimeta : Type 0 where
  pub set_status_condition : Condition → List Condition → List Condition × Bool
  pub find_status_condition : String → List Condition → Option Condition
  pub is_status_condition_true : String → List Condition → Bool

abbrev pub same_status : ConditionStatus → ConditionStatus → Bool
same_status status_true status_true = true
same_status status_false status_false = true
same_status status_unknown status_unknown = true
same_status _ _ = false

-- The condition that stands after `SetStatusCondition`, from the one of its type that stood before:
-- the transition time of an old one is kept if the status is the same.
abbrev pub merged : Condition → Option Condition → Condition
merged c none = c
merged c (some old) =
    if same_status c.status old.status
    then record c { last_transition_time = old.last_transition_time }
    else c

-- What the package documents of these functions.
pub record ApimetaLaws (a : Apimeta) : Type 0 where
  pub find-set :
      (t : String) (c : Condition) (cs : List Condition)
      → a.find_status_condition t (a.set_status_condition c cs).0 ≡ (
          if str_eq c.type t
          then some (merged c (a.find_status_condition t cs))
          else a.find_status_condition t cs)
  pub set_unchanged :
      (c : Condition) (cs : List Condition)
      → (a.set_status_condition c cs).1 ≡ false
      → (a.set_status_condition c cs).0 ≡ cs
  pub is_true-eq-find :
      (t : String) (cs : List Condition)
      → a.is_status_condition_true t cs
        ≡ option_case (a.find_status_condition t cs) false (λ c. is_true c.status)

pub record Env : Type 0 where
  pub server : Server
  pub clock : Clock
  -- ManagedUpstreamClusterVersionName
  pub cluster_version_name : String
  pub apimeta : Apimeta
  -- metav1.LabelSelectorAsSelector and the `Matches` of the selector; `none` is a parse error.
  pub as_selector : Option LabelSelector → Option (Dict → Bool)
  -- controllerutil.RemoveFinalizer: the finalizers that are left, and whether they changed.
  pub remove_finalizer : String → List String → List String × Bool
  -- ctrl.SetControllerReference
  pub set_controller_reference : UpgradeJob → ObjectMeta → Result ObjectMeta
  -- json.Marshal of an UpgradeJob, json.Unmarshal into a map, and json.Marshal of a normalised value
  pub marshal_job : UpgradeJob → Result String
  pub unmarshal_map : String → Result Fields
  pub marshal : Json → Option String
  -- %s of an instant in RFC 3339 and of a duration, and %q of a text
  pub format_time : Time → String
  pub format_duration : Duration → String
  pub quote : String → String
  -- strings.ToLower, and the digest in hexadecimal digits
  pub to_lower : String → String
  pub sha256_hex : String → String
