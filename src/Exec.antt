-- ===== src/Exec.antt =====
-- Effects. A controller method is an action: from the requests that were sent before, it gives its
-- result or an error, and the requests sent after it, newest first. What the API server and the
-- clock answer may depend on all that was sent before; so every behaviour of the server is covered,
-- failures, conflicts and writes of others among them.
pub mod Triple
use openshift_upgrade_contro.Prelude.{
  ℕ, String, Bool, true, false, Option, none, some, List, [], ◌∷◌, ◌≡◌, refl, ◌⊎◌, inl, inr,
}
use openshift_upgrade_contro.Prelude.Dict.{Dict}
use openshift_upgrade_contro.Api.Meta.{NamespacedName, LabelSelector, ObjectMeta}
use openshift_upgrade_contro.Api.Time.{Time}
use openshift_upgrade_contro.Api.Upstream.{
  ClusterVersion, MachineConfigPool, Job, Node, Machine, Pod,
}
use openshift_upgrade_contro.Api.Job.{UpgradeJob}
use openshift_upgrade_contro.Api.Hook.{UpgradeJobHook}
use openshift_upgrade_contro.Api.Window.{UpgradeSuspensionWindow}
use openshift_upgrade_contro.Api.Config.{UpgradeConfig}
use openshift_upgrade_contro.Api.Drain.{NodeForceDrain}
use openshift_upgrade_contro.Api.Managed.{ManagedClusterVersion}

-- metav1.StatusCause
pub record Cause : Type 0 where
  pub type : String
  pub message : String
  pub field : String

-- `not_found` is what apierrors.IsNotFound recognises, and `invalid` what apierrors.IsInvalid does, with
-- its message and causes; `api` is any other answer of the server.
-- `wrap` is fmt.Errorf with %w, and `both` is multierr.Combine of two errors.
pub data Error : Type 0 where
  not_found : Error
  invalid : String → List Cause → Error
  api : String → Error
  failure : String → Error
  wrap : String → Error → Error
  both : Error → Error → Error

pub data Result (A : Type 0) : Type 0 where
  ok : A → Result A
  err : Error → Result A

pub Result-cases :
    {A : Type 0} (r : Result A) → ((e : Error) × (r ≡ err e)) ⊎ ((a : A) × (r ≡ ok a))
Result-cases (err e) = inl (e, refl)
Result-cases (ok a) = inr (a, refl)

-- A dry run has the prefix of the name that the server would make up.
pub data Request : Type 0 where
  read_clock : Request
  get_upgrade_job : NamespacedName → Request
  get_upgrade_config : NamespacedName → Request
  get_cluster_version : String → Request
  list_hooks : String → Request
  list_jobs : String → Dict → Request
  list_upgrade_jobs : String → Request
  list_windows : String → Request
  list_all_pools : Request
  list_pools : Option LabelSelector → Request
  update_upgrade_job_status : UpgradeJob → Request
  update_upgrade_config_status : UpgradeConfig → Request
  update_hook_status : UpgradeJobHook → Request
  update_cluster_version : ClusterVersion → Request
  update_pool : MachineConfigPool → Request
  update_job : Job → Request
  create_job : Job → Request
  create_upgrade_job : UpgradeJob → Request
  delete_upgrade_job : UpgradeJob → Request
  record_event : String → Request
  get_force_drain : NamespacedName → Request
  list_force_drains : Request
  list_nodes : LabelSelector → Request
  list_all_nodes : Request
  list_machines : String → Request
  list_pods : String → Request
  get_namespace : String → Request
  get_daemon_set : NamespacedName → Request
  get_managed_version : NamespacedName → Request
  get_window : NamespacedName → Request
  list_selected_configs : Option LabelSelector → Request
  list_selected_jobs : Option LabelSelector → Request
  list_all_windows : Request
  list_all_configs : Request
  list_all_upgrade_jobs : Request
  list_all_hooks : Request
  update_force_drain_status : NodeForceDrain → Request
  update_managed_version_status : ManagedClusterVersion → Request
  update_window_status : UpgradeSuspensionWindow → Request
  dry_run_job : String → Job → Request
  delete_pod : Pod → Option ℕ → Request
  increment_counter : String → List String → Request

-- An update answers with the object as it was stored, a read of a namespace or a daemon set with its
-- metadata.
abbrev pub Response : Request → Type 0
Response (get_upgrade_job _) = UpgradeJob
Response (get_upgrade_config _) = UpgradeConfig
Response (get_cluster_version _) = ClusterVersion
Response (list_hooks _) = List UpgradeJobHook
Response (list_jobs _ _) = List Job
Response (list_upgrade_jobs _) = List UpgradeJob
Response (list_windows _) = List UpgradeSuspensionWindow
Response list_all_pools = List MachineConfigPool
Response (list_pools _) = List MachineConfigPool
Response (update_upgrade_job_status _) = UpgradeJob
Response (update_upgrade_config_status _) = UpgradeConfig
Response (update_hook_status _) = UpgradeJobHook
Response (update_cluster_version _) = ClusterVersion
Response (update_pool _) = MachineConfigPool
Response (get_force_drain _) = NodeForceDrain
Response list_force_drains = List NodeForceDrain
Response (list_nodes _) = List Node
Response list_all_nodes = List Node
Response (list_machines _) = List Machine
Response (list_pods _) = List Pod
Response (get_namespace _) = ObjectMeta
Response (get_daemon_set _) = ObjectMeta
Response (get_managed_version _) = ManagedClusterVersion
Response (get_window _) = UpgradeSuspensionWindow
Response (list_selected_configs _) = List UpgradeConfig
Response (list_selected_jobs _) = List UpgradeJob
Response list_all_windows = List UpgradeSuspensionWindow
Response list_all_configs = List UpgradeConfig
Response list_all_upgrade_jobs = List UpgradeJob
Response list_all_hooks = List UpgradeJobHook
Response (update_force_drain_status _) = NodeForceDrain
Response (update_managed_version_status _) = ManagedClusterVersion
Response (update_window_status _) = UpgradeSuspensionWindow
Response _ = Unit

abbrev pub History : Type 0
History = List Request

abbrev pub Server : Type 0
Server = History → (r : Request) → Result (Response r)

abbrev pub Clock : Type 0
Clock = History → Time

abbrev pub M : Type 0 → Type 0
M A = History → Result A × History

module _ {A : Type 0} where
  unfoldable pub pure : A → M A
  pure a h = (ok a, h)

  unfoldable pub raise : Error → M A
  raise e h = (err e, h)

  unfoldable pub lift : Result A → M A
  lift r h = (r, h)

  -- The error is handed to the caller as a value.
  unfoldable pub attempt : M A → M (Result A)
  attempt m h = let (r, h') = m h in (ok r, h')

  abbrev add_context : String → Result A → Result A
  add_context s (ok a) = ok a
  add_context s (err e) = err (wrap s e)

  -- `if err != nil { return fmt.Errorf("…: %w", err) }`
  unfoldable pub context : String → M A → M A
  context s m h = let (r, h') = m h in (add_context s r, h')

module _ {A B : Type 0} where
  abbrev continue : Result A → (A → M B) → M B
  continue (ok a) f h = f a h
  continue (err e) f h = (err e, h)

  infixl 10 ◌>>=◌ ◌>>◌
  unfoldable pub ◌>>=◌ : M A → (A → M B) → M B
  unfolding pure raise lift attempt context
  ◌>>=◌ m f h = let (r, h') = m h in continue r f h'

  abbrev pub ◌>>◌ : M A → M B → M B
  m >> n = m >>= λ _. n

  continue-pure : (f : A → B) (r : Result A) (h : History) → (continue r (λ a. pure (f a)) h).1 ≡ h
  unfolding pure
  continue-pure f (ok a) h = refl
  continue-pure f (err e) h = refl

  -- What is computed after an action adds no request.
  pub bind-pure : (m : M A) (f : A → B) (h : History) → ((m >>= λ a. pure (f a)) h).1 ≡ (m h).1
  unfolding ◌>>=◌
  bind-pure m f h = continue-pure f (m h).0 (m h).1

-- One call of the client.
unfoldable pub send : Server → (r : Request) → M (Response r)
send server r h = (server h r, r ∷ h)

-- r.Clock.Now()
unfoldable pub read_now : Clock → M Time
read_now clock h = (ok (clock h), read_clock ∷ h)

-- Branches of an action. They stay shut, so that the rules for actions see them.
infix 1 when◌then◌else◌
unfoldable pub when◌then◌else◌ : {A : Type 0} → Bool → M A → M A → M A
when true then m else n = m
when false then m else n = n

unfoldable pub match_option : {A B : Type 0} → Option A → M B → (A → M B) → M B
match_option none m f = m
match_option (some a) m f = f a

unfoldable pub match_result : {A B : Type 0} → Result A → (Error → M B) → (A → M B) → M B
match_result (err e) m f = m e
match_result (ok a) m f = f a

-- multierr.Combine, over the errors in order.
unfoldable pub combine : List Error → Option Error
combine [] = none
combine (e ∷ es) = elim (combine es) [ none ↦ some e | some e' ↦ some (both e e') ]

abbrev pub option_case {ℓ κ} : {A : Type ℓ} {B : Type κ} → Option A → B → (A → B) → B
option_case none b f = b
option_case (some a) b f = f a

abbrev pub result_case {κ} : {A : Type 0} {B : Type κ} → Result A → (Error → B) → (A → B) → B
result_case (err e) b f = b e
result_case (ok a) b f = f a

unfoldable pub return_errors : List Error → M (Unit {0})
return_errors es = match_option (combine es) (pure tt) raise
