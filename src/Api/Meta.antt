-- ===== src/Api/Meta.antt =====
-- apimachinery's object metadata, status conditions and label selectors.
use openshift_upgrade_contro.Prelude.{String, Bool, true, false, Option, List}
use openshift_upgrade_contro.Prelude.Dict.{Dict}
use openshift_upgrade_contro.Api.Time.{Time}

-- metav1.ConditionStatus: "True", "False" and "Unknown".
pub data ConditionStatus : Type 0 where
  status_true status_false status_unknown : ConditionStatus

abbrev pub is_true : ConditionStatus → Bool
is_true status_true = true
is_true _ = false

-- metav1.Condition
pub record Condition : Type 0 where
  pub type : String
  pub status : ConditionStatus
  pub last_transition_time : Time
  pub reason : String
  pub message : String

-- The owner reference that is marked as the controller.
pub record OwnerReference : Type 0 where
  pub api_version : String
  pub kind : String
  pub name : String
  pub uid : String

-- metav1.ObjectMeta
pub record ObjectMeta : Type 0 where
  pub name : String
  pub namespace : String
  pub uid : String
  pub labels : Dict
  pub annotations : Dict
  pub creation_timestamp : Time
  pub deletion_timestamp : Option Time
  pub finalizers : List String
  pub controller : Option OwnerReference

-- types.NamespacedName
pub record NamespacedName : Type 0 where
  pub namespace : String
  pub name : String

-- metav1.LabelSelectorRequirement and metav1.LabelSelector
pub record Requirement : Type 0 where
  pub key : String
  pub operator : String
  pub values : List String

pub record LabelSelector : Type 0 where
  pub match_labels : Dict
  pub match_expressions : List Requirement
