-- ===== src/Api/Hook.antt =====
-- api/v1beta1/upgradejobhook_types.go: the hook, the events, and how a job claims a hook.
pub mod Laws
use openshift_upgrade_contro.Prelude.{
  String, Bool, true, false, Option, List, [], ◌∷◌, ◌&&◌, ◌||◌, not, str_eq, any_of, if◌then◌else◌,
}
use openshift_upgrade_contro.Api.Meta.{ObjectMeta, LabelSelector}
use openshift_upgrade_contro.Api.Upstream.{JobTemplate}

pub data UpgradeEvent : Type 0 where
  create start upgrade_complete machine_config_pool_unpause finish success failure : UpgradeEvent

-- string(event)
unfoldable pub event_name : UpgradeEvent → String
event_name create = "Create"
event_name start = "Start"
event_name upgrade_complete = "UpgradeComplete"
event_name machine_config_pool_unpause = "MachineConfigPoolUnpause"
event_name finish = "Finish"
event_name success = "Success"
event_name failure = "Failure"

-- Events are compared as the strings that they are.
unfoldable pub contains_event : List UpgradeEvent → UpgradeEvent → Bool
unfolding event_name
contains_event events e = any_of (λ x. str_eq (event_name x) (event_name e)) events

abbrev pub events_influencing_outcome : List UpgradeEvent
events_influencing_outcome = create ∷ start ∷ upgrade_complete ∷ machine_config_pool_unpause ∷ []

abbrev pub events_allowing_skip : List UpgradeEvent
events_allowing_skip = create ∷ start ∷ []

unfoldable pub influences_outcome : UpgradeEvent → Bool
unfolding contains_event
influences_outcome e = contains_event events_influencing_outcome e

unfoldable pub can_skip_update : UpgradeEvent → Bool
unfolding contains_event
can_skip_update e = contains_event events_allowing_skip e

abbrev pub run_next : String
run_next = "Next"

abbrev pub run_all : String
run_all = "All"

abbrev pub failure_policy_ignore : String
failure_policy_ignore = "Ignore"

pub record UpgradeJobHookSpec : Type 0 where
  pub events : List UpgradeEvent
  pub run : String
  pub failure_policy : String
  pub disruptive : Bool
  pub pod_failure_policy_skips_upgrade : Bool
  pub selector : LabelSelector
  pub template : JobTemplate

unfoldable pub get_run : UpgradeJobHookSpec → String
get_run s = if str_eq s.run "" then run_all else s.run

unfoldable pub get_failure_policy : UpgradeJobHookSpec → String
get_failure_policy s =
    if str_eq s.failure_policy "" then failure_policy_ignore else s.failure_policy

pub record ClaimReference : Type 0 where
  pub api_version : String
  pub kind : String
  pub name : String
  pub uid : String

-- ClaimReference{}
abbrev pub no_claim : ClaimReference
no_claim = record { api_version = ""; kind = ""; name = ""; uid = "" }

-- Go's `==` on the struct.
unfoldable pub eqb_claim : ClaimReference → ClaimReference → Bool
eqb_claim a b =
    str_eq a.api_version b.api_version
    && (str_eq a.kind b.kind && (str_eq a.name b.name && str_eq a.uid b.uid))

pub record UpgradeJobHook : Type 0 where
  pub meta : ObjectMeta
  pub spec : UpgradeJobHookSpec
  pub claimed_by : ClaimReference

-- What `Claim` reads of the object that claims.
pub record Claimer : Type 0 where
  pub api_version : String
  pub kind : String
  pub name : String
  pub uid : String

unfoldable pub build_claim_reference : Claimer → ClaimReference
build_claim_reference c = record {
  api_version = c.api_version;
  kind = c.kind;
  name = c.name;
  uid = c.uid;
}

-- The hook after the call, `ok` and `updated`.
unfoldable pub claim : UpgradeJobHook → Claimer → UpgradeJobHook × Bool × Bool
claim u claimer =
    if not (str_eq (get_run u.spec) run_next)
    then (u, true, false)
    else if eqb_claim u.claimed_by (build_claim_reference claimer)
    then (u, true, false)
    else if eqb_claim u.claimed_by no_claim
    then (record u { claimed_by = build_claim_reference claimer }, true, true)
    else (u, false, false)

unfoldable pub would_execute : UpgradeJobHook → Claimer → Bool
would_execute u claimer =
    if not (str_eq (get_run u.spec) run_next)
    then true
    else eqb_claim u.claimed_by no_claim || eqb_claim u.claimed_by (build_claim_reference claimer)
