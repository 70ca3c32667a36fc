-- ===== src/UpgradeConfig/Cleanup/Laws.antt =====
-- Which jobs the cleanup deletes.
use mathlib.Core.List.{Perm}
use openshift_upgrade_contro.Prelude.{
  ℕ, zero, suc, ◌<◌, ◌≡◌, refl, ap, sym, ◌∙◌, subst, true, false, inl, inr, Bool, Bool-cases, List,
  [], ◌∷◌, ◌++◌, All, keep, take, drop, length, ltb, arith,
}
use openshift_upgrade_contro.Prelude.Int.{ℤ, pos, negsuc, ◌≤ℤ◌, ltb_ℤ→le}
use openshift_upgrade_contro.Prelude.Sort.{sort_by}
use openshift_upgrade_contro.Prelude.Sort.Laws.{
  IsStrictWeak, IsSorted, sort_by-IsSorted, sort_by-perm,
}
use openshift_upgrade_contro.Api.Job.{UpgradeJob, condition_succeeded}
use openshift_upgrade_contro.Api.Config.{UpgradeConfig, get_successful_jobs_history_limit}
use openshift_upgrade_contro.Exec.{
  bind-pure, delete_upgrade_job, History, ◌>>=◌, pure, attempt, send, result_case,
}
use openshift_upgrade_contro.UpgradeConfig.{Env}
use openshift_upgrade_contro.UpgradeConfig.Cleanup.{
  is_newer, beyond, successful_jobs, jobs_to_delete, delete_jobs,
}

is_newer-IsStrictWeak : IsStrictWeak is_newer
is_newer-IsStrictWeak = record {
  asym = λ a b h. ground arith;
  not_trans = λ a b c h k. ground arith;
}

take_all : (n : ℕ) (jobs : List UpgradeJob) → ltb n (length jobs) ≡ false → take n jobs ≡ jobs
take_all zero [] h = refl
take_all zero (j ∷ js) h = ground arith
take_all (suc n) [] h = refl
take_all (suc n) (j ∷ js) h = ap (λ (x : List UpgradeJob). j ∷ x) (take_all n js (ground arith))

take-drop : (n : ℕ) (jobs : List UpgradeJob) → take n jobs ++ drop n jobs ≡ jobs
take-drop zero jobs = refl
take-drop (suc n) [] = refl
take-drop (suc n) (j ∷ js) = ap (λ (x : List UpgradeJob). j ∷ x) (take-drop n js)

append_nil : (jobs : List UpgradeJob) → jobs ++ [] ≡ jobs
append_nil [] = refl
append_nil (j ∷ js) = ap (λ (x : List UpgradeJob). j ∷ x) (append_nil js)

beyond-eq-drop :
    (n : ℕ) (jobs : List UpgradeJob)
    → 0 < n
    → ltb n (length jobs) ≡ true
    → beyond (pos n) jobs ≡ drop n jobs
beyond-eq-drop n jobs lt h = ground arith

beyond-eq-nil :
    (n : ℕ) (jobs : List UpgradeJob) → ltb n (length jobs) ≡ false → beyond (pos n) jobs ≡ []
beyond-eq-nil n jobs h = ground arith

take-beyond : (n : ℕ) (jobs : List UpgradeJob) → 0 < n → take n jobs ++ beyond (pos n) jobs ≡ jobs
take-beyond n jobs lt = elim (Bool-cases (ltb n (length jobs))) [
  | inl h ↦
      ap (λ (x : List UpgradeJob). take n jobs ++ x) (beyond-eq-drop n jobs lt h) ∙ take-drop n jobs
  | inr h ↦
      ap (λ (x : List UpgradeJob). take n jobs ++ x) (beyond-eq-nil n jobs h)
      ∙ append_nil (take n jobs)
      ∙ take_all n jobs h
]

All-drop :
    (P : UpgradeJob → Type 0) (n : ℕ) (jobs : List UpgradeJob) → All P jobs → All P (drop n jobs)
All-drop P zero jobs ps = ps
All-drop P (suc n) [] ps = tt
All-drop P (suc n) (j ∷ js) ps = All-drop P n js ps.1

-- Each job of the second list starts no later than each of the first.
abbrev pub StartsAfter : List UpgradeJob → List UpgradeJob → Type 0
StartsAfter kept gone =
    All
      (λ (k : UpgradeJob). All (λ (g : UpgradeJob). g.spec.start_after ≤ℤ k.spec.start_after) gone)
      kept

All-older :
    (k : UpgradeJob) (jobs : List UpgradeJob)
    → All (λ g. is_newer g k ≡ false) jobs
    → All (λ (g : UpgradeJob). g.spec.start_after ≤ℤ k.spec.start_after) jobs
All-older k [] ps = tt
All-older k (g ∷ gs) ps = (ltb_ℤ→le k.spec.start_after g.spec.start_after ps.0, All-older k gs ps.1)

take-StartsAfter-drop :
    (n : ℕ) (jobs : List UpgradeJob)
    → IsSorted is_newer jobs
    → StartsAfter (take n jobs) (drop n jobs)
take-StartsAfter-drop zero jobs s = tt
take-StartsAfter-drop (suc n) [] s = tt
take-StartsAfter-drop (suc n) (j ∷ js) s =
    (All-drop _ n js (All-older j js s.0), take-StartsAfter-drop n js s.1)

StartsAfter-nil : (kept : List UpgradeJob) → StartsAfter kept []
StartsAfter-nil [] = tt
StartsAfter-nil (k ∷ ks) = (tt, StartsAfter-nil ks)

take-StartsAfter-beyond :
    (n : ℕ) (jobs : List UpgradeJob)
    → 0 < n
    → IsSorted is_newer jobs
    → StartsAfter (take n jobs) (beyond (pos n) jobs)
take-StartsAfter-beyond n jobs lt s = elim (Bool-cases (ltb n (length jobs))) [
  | inl h ↦
      subst (λ gone. StartsAfter (take n jobs) gone) (sym (beyond-eq-drop n jobs lt h))
        (take-StartsAfter-drop n jobs s)
  | inr h ↦
      subst (λ gone. StartsAfter (take n jobs) gone) (sym (beyond-eq-nil n jobs h))
        (StartsAfter-nil (take n jobs))
]

module _ (env : Env) where
  abbrev has_succeeded : UpgradeJob → Bool
  has_succeeded job = env.apimeta.is_status_condition_true condition_succeeded job.conditions

  -- With a positive limit `n` the successful jobs of the list, each as often as it stands there, are
  -- the first `n` in order of their start, the newest first, and those that are to be deleted. No job
  -- to be deleted starts later than one that stays.
  pub jobs_to_delete-StartsAfter :
      (uc : UpgradeConfig) (jobs : List UpgradeJob) (n : ℕ)
      → get_successful_jobs_history_limit uc.spec ≡ pos n
      → 0 < n
      → Perm
          (take n (successful_jobs env jobs) ++ jobs_to_delete env uc jobs)
          (keep has_succeeded jobs)
        × StartsAfter (take n (successful_jobs env jobs)) (jobs_to_delete env uc jobs)
  unfolding jobs_to_delete successful_jobs
  jobs_to_delete-StartsAfter uc jobs n e lt =
      let sorted = sort_by is_newer (keep has_succeeded jobs) in
      rw e (
        rw (take-beyond n sorted lt) (sort_by-perm is_newer (keep has_succeeded jobs)),
        take-StartsAfter-beyond n sorted lt
            (sort_by-IsSorted is_newer is_newer-IsStrictWeak (keep has_succeeded jobs)),
      )

  -- A limit that is not positive keeps every job.
  pub jobs_to_delete_no_limit :
      (uc : UpgradeConfig) (jobs : List UpgradeJob)
      → get_successful_jobs_history_limit uc.spec ≤ℤ pos 0
      → jobs_to_delete env uc jobs ≡ []
  unfolding jobs_to_delete
  jobs_to_delete_no_limit uc jobs h =
      beyond_none (get_successful_jobs_history_limit uc.spec) (successful_jobs env jobs) h
    where
      beyond_none : (l : ℤ) (js : List UpgradeJob) → l ≤ℤ pos 0 → beyond l js ≡ []
      beyond_none (negsuc m) js h = refl
      beyond_none (pos m) js h = ground arith

  -- The requests of the deletions, the last one first, before those on record.
  abbrev pub deletions : List UpgradeJob → History → History
  deletions [] h = h
  deletions (job ∷ jobs) h = deletions jobs (delete_upgrade_job job ∷ h)

  -- The deletion of every job is tried, in order, whether those before it succeed or fail.
  pub delete_jobs-deletions :
      (jobs : List UpgradeJob) (h : History) → (delete_jobs env jobs h).1 ≡ deletions jobs h
  unfolding delete_jobs ◌>>=◌ attempt send pure
  delete_jobs-deletions [] h = refl
  delete_jobs-deletions (job ∷ jobs) h =
      let h' = delete_upgrade_job job ∷ h in
      bind-pure (delete_jobs env jobs)
        (λ more. result_case (env.server h (delete_upgrade_job job)) (λ e. e ∷ more) (λ _. more)) h'
      ∙ delete_jobs-deletions jobs h'
