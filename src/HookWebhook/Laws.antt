-- ===== src/HookWebhook/Laws.antt =====
-- The verdict of the webhook, over all of its branches.
use openshift_upgrade_contro.Prelude.{◌≡◌, refl, inl, inr, ◌∷◌, Bool-cases, if◌then◌else◌}
use openshift_upgrade_contro.Api.Hook.{UpgradeJobHook}
use openshift_upgrade_contro.Exec.{
  ok, err, Result, Result-cases, History, ◌>>=◌, pure, raise, attempt, send, dry_run_job,
  match_result, when◌then◌else◌,
}
use openshift_upgrade_contro.HookWebhook.{
  Env, template_job, denied, validate, validate_create, validate_update, validate_delete,
}

module _ (env : Env) (hook : UpgradeJobHook) (h : History) where
  abbrev pub answer : Result (Unit {0})
  answer = env.server h (dry_run_job hook.meta.name (template_job hook))

  -- What a validation gives, when the server admits the job and when it refuses it.
  abbrev pub verdict : Result (Unit {0}) → Result (Unit {0})
  verdict (ok a) = ok tt
  verdict (err e) = err (denied env e)

  validate-eq :
      validate env hook h ≡ (verdict answer, dry_run_job hook.meta.name (template_job hook) ∷ h)
  unfolding validate ◌>>=◌ attempt send match_result pure raise
  validate-eq = elim (Result-cases answer) [ inl (e, q) ↦ rw q refl | inr (a, q) ↦ rw q refl ]

  -- The creation of a hook, and an update that changes its template, are answered as the server answers
  -- one dry run of the job: admitted, or refused with its error. An update that leaves the template
  -- and a deletion are admitted without a request.
  pub validate_all :
      (old : UpgradeJobHook)
      → (validate_create env hook h
          ≡ (verdict answer, dry_run_job hook.meta.name (template_job hook) ∷ h))
        × (validate_update env old hook h ≡ (
            if env.deep_equal old.spec.template hook.spec.template
            then (ok tt, h)
            else (verdict answer, dry_run_job hook.meta.name (template_job hook) ∷ h)))
        × (validate_delete env hook h ≡ (ok tt, h))
  unfolding validate_create validate_update validate_delete when◌then◌else◌ pure
  validate_all old = (
    validate-eq,
    elim (Bool-cases (env.deep_equal old.spec.template hook.spec.template)) [
      | inl e ↦ rw e refl
      | inr e ↦ rw e validate-eq
    ],
    refl,
  )
