-- ===== src/UpgradeJob/Track/Laws.antt =====
-- What the tracking of the hook jobs keeps, and which finalizers it drops.
use openshift_upgrade_contro.Prelude.{
  eq_refl, ◌≡◌, refl, true, false, not, Bool-cases, inl, inr, List, [], ◌∷◌, All, map, or_true,
  ◌&&◌, arith, if◌then◌else◌,
}
use openshift_upgrade_contro.Api.Upstream.{Job}
use openshift_upgrade_contro.Api.Job.{UpgradeJob, HookJobTracker, complete, failed, active}
use openshift_upgrade_contro.Exec.{
  Request, update_job, update_upgrade_job_status, History, list_jobs,
}
use openshift_upgrade_contro.Exec.Triple.{
  Triple, Triple-bind, Triple-pure, Triple-when, Triple-attempt, Triple-send-Any,
  Triple-return_errors, Any,
}
use openshift_upgrade_contro.UpgradeJob.Env.{Env}
use openshift_upgrade_contro.UpgradeJob.HookJob.{is_job_finished}
use openshift_upgrade_contro.UpgradeJob.Track.{
  is_active, eqb_tracker, eqb_tracker_status, has_tracker, add_tracker, add_completed, tracker_set,
  tracker_of_job, current_and_completed, drop_finalizer, drop_finalizers, track_jobs,
}

eqb_tracker_refl : (t : HookJobTracker) → eqb_tracker t t ≡ true
unfolding eqb_tracker
eqb_tracker_refl t = rw (eq_refl t.hook_event) (
    rw (eq_refl t.tracking_key) (
      rw (eq_refl t.upgrade_job_hook_name)
        (rw (eq_refl t.message) (rw (eq_refl t.reason) (status_refl t.status)))))
  where
    status_refl :
        (s : openshift_upgrade_contro.Api.Job.TrackerStatus)
        → (eqb_tracker_status s s) && true ≡ true
    status_refl complete = refl
    status_refl failed = refl
    status_refl active = refl

has_tracker-head : (t : HookJobTracker) (ts : List HookJobTracker) → has_tracker t (t ∷ ts) ≡ true
unfolding has_tracker
has_tracker-head t ts = rw (eqb_tracker_refl t) refl

has_tracker-cons :
    (t u : HookJobTracker) (ts : List HookJobTracker)
    → has_tracker t ts ≡ true
    → has_tracker t (u ∷ ts) ≡ true
unfolding has_tracker
has_tracker-cons t u ts h = rw h (or_true (eqb_tracker t u))

has_tracker-add :
    (t u : HookJobTracker) (ts : List HookJobTracker)
    → has_tracker t ts ≡ true
    → has_tracker t (add_tracker u ts) ≡ true
unfolding add_tracker
has_tracker-add t u ts h = elim (Bool-cases (has_tracker u ts)) [
  | inl e ↦ rw e h
  | inr e ↦ rw e (has_tracker-cons t u ts h)
]

has_tracker-add_self :
    (t : HookJobTracker) (ts : List HookJobTracker) → has_tracker t (add_tracker t ts) ≡ true
unfolding add_tracker
has_tracker-add_self t ts = elim (Bool-cases (has_tracker t ts)) [
  | inl e ↦ rw e e
  | inr e ↦ rw e (has_tracker-head t ts)
]

has_tracker-add_completed :
    (t : HookJobTracker) (ss set : List HookJobTracker)
    → has_tracker t set ≡ true
    → has_tracker t (add_completed ss set) ≡ true
unfolding add_completed
has_tracker-add_completed t [] set h = h
has_tracker-add_completed t (s ∷ ss) set h = elim (Bool-cases (is_active s.status)) [
  | inl e ↦ rw e (has_tracker-add_completed t ss set h)
  | inr e ↦ rw e (has_tracker-add_completed t ss (add_tracker s set) (has_tracker-add t s set h))
]

All-weaken :
    {A : Type 0} (P Q : A → Type 0) (xs : List A) → ((a : A) → P a → Q a) → All P xs → All Q xs
All-weaken P Q [] w ps = tt
All-weaken P Q (x ∷ xs) w ps = (w x ps.0, All-weaken P Q xs w ps.1)

-- Every completed tracker of the first list is in the second.
abbrev pub HasCompleted : List HookJobTracker → List HookJobTracker → Type 0
HasCompleted ss set =
    All (λ (s : HookJobTracker). is_active s.status ≡ false → has_tracker s set ≡ true) ss

add_completed-HasCompleted : (ss set : List HookJobTracker) → HasCompleted ss (add_completed ss set)
unfolding add_completed
add_completed-HasCompleted [] set = tt
add_completed-HasCompleted (s ∷ ss) set =
    let set' = if not (is_active s.status) then add_tracker s set else set in
    (
      λ e. has_tracker-add_completed s ss set' (rw e (has_tracker-add_self s set)),
      add_completed-HasCompleted ss set',
    )

tracker_set-has : (ts : List HookJobTracker) → All (λ t. has_tracker t (tracker_set ts) ≡ true) ts
unfolding tracker_set
tracker_set-has [] = tt
tracker_set-has (t ∷ ts) = (
  has_tracker-add_self t (tracker_set ts),
  All-weaken (λ u. has_tracker u (tracker_set ts) ≡ true)
      (λ u. has_tracker u (add_tracker t (tracker_set ts)) ≡ true) ts
      (λ u h. has_tracker-add u t (tracker_set ts) h) (tracker_set-has ts),
)

All-of_All-map :
    {A B : Type 0} (f : A → B) (P : B → Type 0) (xs : List A)
    → All P (map f xs)
    → All (λ a. P (f a)) xs
All-of_All-map f P [] ps = tt
All-of_All-map f P (x ∷ xs) ps = (ps.0, All-of_All-map f P xs ps.1)

-- What `trackHookJobs` is to store has a tracker for every job that is listed, with the state that
-- the job now has, and loses no tracker of the status that was complete or failed, also when its job
-- is gone.
pub current_and_completed-HasCompleted :
    (uj : UpgradeJob) (jobs : List Job)
    → All (λ j. has_tracker (tracker_of_job j) (current_and_completed uj jobs) ≡ true) jobs
      × HasCompleted uj.hook_job_tracker (current_and_completed uj jobs)
unfolding current_and_completed
current_and_completed-HasCompleted uj jobs =
    let now_known = tracker_set (map tracker_of_job jobs) in
    (
      All-of_All-map tracker_of_job
          (λ t. has_tracker t (add_completed uj.hook_job_tracker now_known) ≡ true) jobs
          (All-weaken (λ u. has_tracker u now_known ≡ true)
            (λ u. has_tracker u (add_completed uj.hook_job_tracker now_known) ≡ true)
            (map tracker_of_job jobs)
            (λ u h. has_tracker-add_completed u uj.hook_job_tracker now_known h)
            (tracker_set-has (map tracker_of_job jobs))),
      add_completed-HasCompleted uj.hook_job_tracker now_known,
    )

-- A request that updates a job only if it is finished.
abbrev pub UpdatesFinished : Request → Type 0
UpdatesFinished (update_job j) = is_job_finished j ≡ true
UpdatesFinished _ = Unit

module _ (env : Env) where
  drop_finalizer-UpdatesFinished :
      (j : Job) → is_job_finished j ≡ true → Triple (All UpdatesFinished) (drop_finalizer env j) Any
  unfolding drop_finalizer is_job_finished
  drop_finalizer-UpdatesFinished j f =
      Triple-when _ _ _
        (λ _.
          Triple-bind _ _ _
            (Triple-attempt _ (Triple-send-Any env.server (update_job _) (λ h p. (f, p))))
            (λ _ _. Triple-pure _ tt))
        (λ _. Triple-pure _ tt)

  drop_finalizers-UpdatesFinished :
      (js : List Job) → Triple (All UpdatesFinished) (drop_finalizers env false js) Any
  unfolding drop_finalizers
  drop_finalizers-UpdatesFinished [] = Triple-pure _ tt
  drop_finalizers-UpdatesFinished (j ∷ js) =
      Triple-when _ _ _ (λ _. drop_finalizers-UpdatesFinished js)
        (λ k. Triple-bind Any _ _ (drop_finalizer-UpdatesFinished j (ground arith)) (λ _ _.
          Triple-bind Any _ _ (drop_finalizers-UpdatesFinished js) (λ _ _. Triple-pure _ tt)))

  -- While the upgrade job exists, its tracking takes the finalizer of no job that has not finished.
  pub track_jobs-UpdatesFinished :
      (uj : UpgradeJob) (h : History)
      → All UpdatesFinished h
      → All UpdatesFinished (track_jobs env uj h).1
  unfolding track_jobs
  track_jobs-UpdatesFinished uj h p =
      let t : Triple (All UpdatesFinished) (track_jobs env uj) Any =
        Triple-bind Any _ _ (Triple-send-Any env.server (list_jobs _ _) (λ h p. (tt, p))) (λ jobs _.
          Triple-bind Any _ _
            (Triple-when _ _ _ (λ _. Triple-pure _ tt)
              (λ _. Triple-send-Any env.server (update_upgrade_job_status _) (λ h p. (tt, p))))
            (λ _ _.
              Triple-bind Any _ _ (drop_finalizers-UpdatesFinished jobs)
                (λ es _. Triple-return_errors es))) in
      (t.at h p).0
