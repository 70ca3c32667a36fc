-- ===== src/UpgradeJob/Lock/Laws.antt =====
-- The lock names its job.
use Prim.Native.Char.{code}
use text.Mathlib.TextLemmas.{nil-append, cons-append, append-eq-nil_iff}
use openshift_upgrade_contro.Prelude.{
  String, str_eq, eq_refl, eq_iff, ◌<>◌, ◌≡◌, refl, ap, ◌∙◌, true, false, ◌==◌, Bool-cases, inl,
  inr, some, List, [], ◌∷◌, if◌then◌else◌,
}
use openshift_upgrade_contro.Prelude.Dict.{Dict, lookup, read, insert, lookup-insert}
use openshift_upgrade_contro.Api.Meta.{NamespacedName}
use openshift_upgrade_contro.Api.Upstream.{ClusterVersion}
use openshift_upgrade_contro.UpgradeJob.Lock.{
  job_lock_annotation, slash, split, upgrade_job_name_from_locked_cluster_version, with_lock,
}

-- No character of the text is a slash. (Names and namespaces of Kubernetes have none.)
abbrev pub HasNoSlash : String → Type 0
HasNoSlash String.[] = Unit
HasNoSlash (String.◌∷◌ c s) = (code c == slash ≡ false) × HasNoSlash s

split_none : (s : String) → HasNoSlash s → split s ≡ s ∷ []
unfolding split
split_none String.[] h = refl
split_none (String.◌∷◌ c s) h = rw (h.0, split_none s h.1) refl

split_slash : (t : String) → HasNoSlash t → split ("/" <> t) ≡ "" ∷ t ∷ []
unfolding split
split_slash t k =
    ap split (cons-append "/" "" t ∙ ap (String.◌∷◌ "/") (nil-append t))
    ∙ ap (λ (x : List String). "" ∷ x) (split_none t k)

split_one : (s t : String) → HasNoSlash s → HasNoSlash t → split (s <> ("/" <> t)) ≡ s ∷ t ∷ []
unfolding split
split_one String.[] t h k = ap split (nil-append ("/" <> t)) ∙ split_slash t k
split_one (String.◌∷◌ c s) t h k =
    ap split (cons-append c s ("/" <> t)) ∙ rw (h.0, split_one s t h.1 k) refl

not_empty : (s t : String) → str_eq (s <> ("/" <> t)) "" ≡ false
not_empty s t = elim (Bool-cases (str_eq (s <> ("/" <> t)) "")) [
  | inl e ↦
      let parts = append-eq-nil_iff.0 ((eq_iff (s <> ("/" <> t)) "").0 e) in
      let slash_empty : "/" ≡ "" = (append-eq-nil_iff.0 parts.1).0 in
      let absurd : str_eq "/" "" ≡ true = (eq_iff "/" "").1 slash_empty in cc
  | inr e ↦ e
]

read_of_lookup : (k v : String) (m : Dict) → lookup k m ≡ some v → read k m ≡ v
unfolding read
read_of_lookup k v m e = rw (e, read) refl

read-insert : (k v : String) (m : Dict) → read k (insert k v m) ≡ v
read-insert k v m =
    read_of_lookup k v (insert k v m)
      (lookup-insert k k v m ∙ ap (λ b. if b then some v else lookup k m) (eq_refl k))

-- A cluster version that was locked with the value that a job locks with, its namespace and its name
-- with a slash between, is mapped back to that job, if neither has a slash. All else of the version
-- is arbitrary, an older lock included.
pub upgrade_job_name-with_lock :
    (cv : ClusterVersion) (nn : NamespacedName)
    → HasNoSlash nn.namespace
    → HasNoSlash nn.name
    → upgrade_job_name_from_locked_cluster_version (with_lock cv (nn.namespace <> ("/" <> nn.name)))
      ≡ some nn
unfolding upgrade_job_name_from_locked_cluster_version
upgrade_job_name-with_lock cv nn h k =
    let v = nn.namespace <> ("/" <> nn.name) in
    rw (read-insert job_lock_annotation v cv.meta.annotations)
      (rw (not_empty nn.namespace nn.name) (rw (split_one nn.namespace nn.name h k) refl))
