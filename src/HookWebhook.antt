-- ===== src/HookWebhook.antt =====
-- internal/webhook/v1beta1/upgradejobhook_webhook.go: a hook is admitted if the server would admit a job of
-- its template. apiequality.Semantic.DeepEqual on templates and the text of an error are parameters.
pub mod Laws
use openshift_upgrade_contro.Prelude.{
  String, ◌<>◌, Bool, true, false, Option, none, some, List, [], map,
}
use openshift_upgrade_contro.Api.Time.{zero_time}
use openshift_upgrade_contro.Api.Upstream.{Job, JobTemplate}
use openshift_upgrade_contro.Api.Hook.{UpgradeJobHook}
use openshift_upgrade_contro.Exec.{
  Server, Error, not_found, invalid, api, failure, wrap, both, Cause, M, ◌>>=◌, ◌>>◌, pure, raise,
  attempt, send, dry_run_job, option_case, match_result, when◌then◌else◌,
}

pub record Env : Type 0 where
  pub server : Server
  pub deep_equal : JobTemplate → JobTemplate → Bool
  pub error_text : Error → String

-- The job of the template. It has no name; its `generateName` stands in the request.
unfoldable pub template_job : UpgradeJobHook → Job
template_job r = record {
  meta = record {
    name = "";
    namespace = r.meta.namespace;
    uid = "";
    labels = r.spec.template.labels;
    annotations = r.spec.template.annotations;
    creation_timestamp = zero_time;
    deletion_timestamp = none;
    finalizers = [];
    controller = none;
  };
  init_containers = r.spec.template.init_containers;
  containers = r.spec.template.containers;
  conditions = [];
}

-- A cause with its path from the hook.
abbrev pub in_hook : Cause → Cause
in_hook c = record c { field = "spec.template." <> c.field }

-- apierrors.IsInvalid and errors.AsType: the causes of an invalid object, which may be wrapped.
unfoldable pub invalid_causes : Error → Option (List Cause)
invalid_causes not_found = none
invalid_causes (invalid message causes) = some causes
invalid_causes (api s) = none
invalid_causes (failure s) = none
invalid_causes (wrap s e) = invalid_causes e
invalid_causes (both e f) = option_case (invalid_causes e) (invalid_causes f) some

module _ (env : Env) where
  -- The error of a hook whose job the server refuses.
  unfoldable pub denied : Error → Error
  unfolding invalid_causes
  denied e =
      option_case (invalid_causes e) (wrap "Job creation from template would fail" e) (λ causes.
        invalid
          ("Job creation from template would fail. (Upstream error: " <> (env.error_text e <> ")"))
          (map in_hook causes))

  unfoldable pub validate : UpgradeJobHook → M (Unit {0})
  validate r = do
    answer ← attempt (send env.server (dry_run_job r.meta.name (template_job r)))
    match_result answer (λ e. raise (denied e)) (λ _. pure tt)

  unfoldable pub validate_create : UpgradeJobHook → M (Unit {0})
  validate_create hook = validate hook

  unfoldable pub validate_update : UpgradeJobHook → UpgradeJobHook → M (Unit {0})
  validate_update old_hook new_hook =
      when env.deep_equal old_hook.spec.template new_hook.spec.template
      then pure tt
      else validate new_hook

  unfoldable pub validate_delete : UpgradeJobHook → M (Unit {0})
  validate_delete hook = pure tt
