-- ===== src/ManagedVersion/Overlay/Laws.antt =====
-- Which overlay is used, and until when.
use mathlib.Core.List.{Memᴰ, reverse, reverse-cons}
use openshift_upgrade_contro.Prelude.{
  ◌≡◌, refl, ◌∙◌, subst, Bool, true, false, not, Option, none, some, List, [], ◌∷◌, ◌++◌,
  find_first, All, All-mem, Bool-cases, Option-cases, inl, inr, arith, if◌then◌else◌,
}
use openshift_upgrade_contro.Prelude.Int.{◌≤ℤ◌, ◌<ℤ◌}
use openshift_upgrade_contro.Prelude.Sort.{sort_by}
use openshift_upgrade_contro.Prelude.Sort.Laws.{
  All-sort_by, All-of_All-sort_by, IsSorted, IsStrictWeak, sort_by-IsSorted,
}
use openshift_upgrade_contro.Api.Time.{Time, before}
use openshift_upgrade_contro.Api.Managed.{ClusterVersionSpec, Overlay}
use openshift_upgrade_contro.Exec.{Result, Result-cases, ok, err, option_case}
use openshift_upgrade_contro.ManagedVersion.{Env}
use openshift_upgrade_contro.ManagedVersion.Overlay.{
  comes_first, sort_overlays_by_from, used_overlay, apply_overlay,
}

pub comes_first-IsStrictWeak : IsStrictWeak comes_first
unfolding comes_first
comes_first-IsStrictWeak = record {
  asym = λ a b h. ground arith;
  not_trans = λ a b c p q. ground arith;
}

pub not_first : (a b : Overlay) → comes_first a b ≡ false → b.from ≤ℤ a.from
unfolding comes_first
not_first a b h = ground arith

-- The last element that passes a test.
abbrev pub find_last : (Overlay → Bool) → List Overlay → Option Overlay
find_last p [] = none
find_last p (x ∷ xs) = option_case (find_last p xs) (if p x then some x else none) some

find_first-append :
    (p : Overlay → Bool) (xs ys : List Overlay)
    → find_first p (xs ++ ys) ≡ option_case (find_first p xs) (find_first p ys) some
find_first-append p [] ys = refl
find_first-append p (x ∷ xs) ys = elim (Bool-cases (p x)) [
  | inl e ↦ rw e refl
  | inr e ↦ rw e (find_first-append p xs ys)
]

pub find_first-reverse :
    (p : Overlay → Bool) (xs : List Overlay) → find_first p (reverse xs) ≡ find_last p xs
find_first-reverse p [] = refl
find_first-reverse p (x ∷ xs) =
    rw (reverse-cons x xs)
      (rw (find_first-append p (reverse xs) (x ∷ [])) (rw (find_first-reverse p xs) refl))

module _ (now : Time) where
  abbrev pub has_begun : Overlay → Bool
  has_begun o = not (before now o.from)

  -- The overlay is in force at `now`: it has begun, and no later one has.
  pub record IsInForce (overlays : List Overlay) (o : Overlay) : Type 0 where
    pub member : Memᴰ o overlays
    pub begun : o.from ≤ℤ now
    pub latest : All (λ q. q.from ≤ℤ now → q.from ≤ℤ o.from) overlays

  abbrev IsNotBegun : List Overlay → Type 0
  IsNotBegun overlays = All (λ q. now <ℤ q.from) overlays

  -- The overlay that is in force, or none if none has begun.
  abbrev pub Chooses : List Overlay → Option Overlay → Type 0
  Chooses overlays none = IsNotBegun overlays
  Chooses overlays (some o) = IsInForce overlays o

  abbrev IsLast : List Overlay → Overlay → Type 0
  IsLast xs o = (has_begun o ≡ true) × All (λ q. q.from ≤ℤ now → q.from ≤ℤ o.from) xs

  abbrev Found : (Overlay → Type 0) → List Overlay → Option Overlay → Type 0
  Found P xs none = IsNotBegun xs
  Found P xs (some o) = P o × IsLast xs o

  All-past :
      (x : Overlay) (xs : List Overlay)
      → IsNotBegun xs
      → All (λ q. q.from ≤ℤ now → q.from ≤ℤ x.from) xs
  All-past x [] ns = tt
  All-past x (y ∷ ys) ns = ((λ h. absurd (omega arith)), All-past x ys ns.1)

  add_first :
      (P : Overlay → Type 0) (x : Overlay) (xs : List Overlay) (r : Option Overlay)
      → P x
      → All P xs
      → All (λ y. comes_first y x ≡ false) xs
      → Found P xs r
      → ((o : Overlay) → r ≡ some o → x.from ≤ℤ o.from)
      → Found P (x ∷ xs) (option_case r (if has_begun x then some x else none) some)
  add_first P x xs none px ps s f k = elim (Bool-cases (before now x.from)) [
    | inl e ↦ rw e (ground arith, f)
    | inr e ↦ rw e (px, (rw e refl, ((λ h. omega arith), All-past x xs f)))
  ]
  add_first P x xs (some o) px ps s f k = (f.0, (f.1.0, ((λ h. k o refl), f.1.1)))

  All-find_last :
      (Q : Overlay → Type 0) (p : Overlay → Bool) (xs : List Overlay) (o : Overlay)
      → All Q xs
      → find_last p xs ≡ some o
      → Q o
  All-find_last Q p [] o qs e = cc
  All-find_last Q p (x ∷ xs) o qs e = elim (Option-cases (find_last p xs)) [
    | inl n ↦ elim (Bool-cases (p x)) [
      | inl b ↦ let e' : some x ≡ some o = rw (n, b) at e in let q : x ≡ o = cc in subst Q q qs.0
      | inr b ↦ let e' : none ≡ some o = rw (n, b) at e in cc
    ]
    | inr (y, q) ↦ let e' : some y ≡ some o = rw q at e in All-find_last Q p xs o qs.1 (q ∙ e')
  ]

  find_last-Found :
      (P : Overlay → Type 0) (xs : List Overlay)
      → All P xs
      → IsSorted comes_first xs
      → Found P xs (find_last has_begun xs)
  find_last-Found P [] ps s = tt
  find_last-Found P (x ∷ xs) ps s =
      add_first P x xs (find_last has_begun xs) ps.0 ps.1 s.0 (find_last-Found P xs ps.1 s.1)
        (λ o e. not_first o x (All-find_last (λ y. comes_first y x ≡ false) has_begun xs o s.0 e))

  Found-Chooses :
      (overlays : List Overlay) (r : Option Overlay)
      → Found (λ o. Memᴰ o overlays) (sort_by comes_first overlays) r
      → Chooses overlays r
  Found-Chooses overlays none f = All-of_All-sort_by comes_first (λ q. now <ℤ q.from) overlays f
  Found-Chooses overlays (some o) f = record {
    member = f.0;
    begun = let b : has_begun o ≡ true = f.1.0 in ground arith;
    latest = All-of_All-sort_by comes_first (λ q. q.from ≤ℤ now → q.from ≤ℤ o.from) overlays f.1.1;
  }

  pub used_overlay-Chooses :
      (overlays : List Overlay) → Chooses overlays (used_overlay overlays now)
  unfolding used_overlay sort_overlays_by_from
  used_overlay-Chooses overlays = rw (find_first-reverse has_begun (sort_by comes_first overlays)) (
      Found-Chooses overlays _ (
        find_last-Found (λ o. Memᴰ o overlays) (sort_by comes_first overlays)
          (All-sort_by comes_first (λ o. Memᴰ o overlays) overlays
            (All-mem overlays overlays (λ a m. m)))
          (sort_by-IsSorted comes_first comes_first-IsStrictWeak overlays)))

module _ (env : Env) where
  abbrev Applied : Type 0
  Applied = Result (Option Overlay × ClusterVersionSpec)

  -- The template, with the overlay merged into it if one is used.
  abbrev pub IsOverlaid : ClusterVersionSpec → Option Overlay → ClusterVersionSpec → Type 0
  IsOverlaid base none spec = spec ≡ base
  IsOverlaid base (some o) spec = env.merge base o.spec ≡ ok spec

  merged :
      (base spec : ClusterVersionSpec) (overlays : List Overlay) (now : Time)
      (u u' : Option Overlay)
      → used_overlay overlays now ≡ u'
      → apply_overlay env base overlays now ≡ ok (u, spec)
      → (u' ≡ u) × IsOverlaid base u spec
  unfolding apply_overlay
  merged base spec overlays now u none q e =
      let e' : ◌≡◌ {A = Applied} (ok (none, base)) (ok (u, spec)) = rw (q, apply_overlay) at e in
      let a : none ≡ u = cc in
      let b : spec ≡ base = cc in (a, subst (λ v. IsOverlaid base v spec) a b)
  merged base spec overlays now u (some o) q e = elim (Result-cases (env.merge base o.spec)) [
    | inl (x, r) ↦
        let e' : ◌≡◌ {A = Applied} (err x) (ok (u, spec)) = rw (q, apply_overlay, r) at e in cc
    | inr (m, r) ↦
        let e' : ◌≡◌ {A = Applied} (ok (some o, m)) (ok (u, spec)) =
          rw (q, apply_overlay, r) at e in
        let a : some o ≡ u = cc in
        let b : m ≡ spec = cc in (a, subst (λ v. IsOverlaid base v spec) a (rw (← b) r))
  ]

  -- The spec that is applied is the template with the overlay that is in force merged into it: one of
  -- the overlays, which has begun, while none that began has a later start. If no overlay has
  -- begun it is the template.
  pub apply_overlay-Chooses :
      (base spec : ClusterVersionSpec) (overlays : List Overlay) (now : Time)
      (used : Option Overlay)
      → apply_overlay env base overlays now ≡ ok (used, spec)
      → Chooses now overlays used × IsOverlaid base used spec
  apply_overlay-Chooses base spec overlays now used e =
      let (a, b) = merged base spec overlays now used (used_overlay overlays now) refl e in
      (subst (Chooses now overlays) a (used_overlay-Chooses now overlays), b)
