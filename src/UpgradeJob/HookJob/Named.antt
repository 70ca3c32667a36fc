-- ===== src/UpgradeJob/HookJob/Named.antt =====
-- The names of the jobs of a hook.
use openshift_upgrade_contro.Prelude.{String, ◌≡◌, [], ◌∷◌}
use openshift_upgrade_contro.Prelude.Dict.{read}
use openshift_upgrade_contro.Api.Meta.{ObjectMeta}
use openshift_upgrade_contro.Api.Job.{UpgradeJob}
use openshift_upgrade_contro.Api.Hook.{UpgradeEvent, event_name, UpgradeJobHook}
use openshift_upgrade_contro.Exec.{Request, ok, create_job, list_jobs}
use openshift_upgrade_contro.Exec.Triple.{Triple}
use openshift_upgrade_contro.UpgradeJob.Env.{Env}
use openshift_upgrade_contro.UpgradeJob.HookJob.{label_tracking_key, job_name}

-- controllerutil.SetControllerReference changes the owner references only.
abbrev pub KeepsName : Env → Type 0
KeepsName env =
    (uj : UpgradeJob) (m m' : ObjectMeta)
    → env.set_controller_reference uj m ≡ ok m'
    → (m'.name ≡ m.name) × (m'.namespace ≡ m.namespace)

-- The tracking key of a request for jobs.
abbrev key_of : Request → String
key_of (list_jobs ns labels) = read label_tracking_key labels
key_of _ = ""

module _ (env : Env) (uj : UpgradeJob) (hook : UpgradeJobHook) (event : UpgradeEvent) where
  -- A job that is created has the name of the upgrade job, the hook and the event.
  abbrev pub IsNamed : Request → Type 0
  IsNamed (create_job j) =
      (j.meta.name
        ≡ job_name env.to_lower env.sha256_hex
            (uj.meta.name ∷ hook.meta.name ∷ event_name event ∷ "hook" ∷ []))
      × (j.meta.namespace ≡ uj.meta.namespace)
  IsNamed _ = Unit
