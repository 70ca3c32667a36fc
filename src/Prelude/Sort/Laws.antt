-- ===== src/Prelude/Sort/Laws.antt =====
-- The sort keeps the elements, and puts no element behind one that it should stand before.
use mathlib.Core.Path.{◌≡◌}
use mathlib.Core.Bool.{Bool, true, false}
use mathlib.Core.Logic.{inl, inr}
use mathlib.Core.List.{List, [], ◌∷◌, Perm}
use mathlib.Core.List.Perm
use openshift_upgrade_contro.Prelude.Tests.{Bool-cases}
use openshift_upgrade_contro.Prelude.Lists.{All}
use openshift_upgrade_contro.Prelude.Sort.{insert_by, sort_by}

module _ {ℓ} {A : Type ℓ} (less : A → A → Bool) where
  insert_by-perm : (a : A) (xs : List A) → Perm (insert_by less a xs) (a ∷ xs)
  insert_by-perm a [] = Perm.refl (a ∷ [])
  insert_by-perm a (x ∷ xs) = elim (Bool-cases (less x a)) [
    | inl e ↦ rw e (Perm.trans (Perm.cons x (insert_by-perm a xs)) (Perm.swap a x xs))
    | inr e ↦ rw e (Perm.refl (a ∷ x ∷ xs))
  ]

  pub sort_by-perm : (xs : List A) → Perm (sort_by less xs) xs
  unfolding sort_by
  sort_by-perm [] = Perm.refl []
  sort_by-perm (x ∷ xs) =
      Perm.trans (insert_by-perm x (sort_by less xs)) (Perm.cons x (sort_by-perm xs))

  module _ {κ} (P : A → Type κ) where
    All-insert_by : (a : A) (xs : List A) → P a → All P xs → All P (insert_by less a xs)
    All-insert_by a [] p ps = (p, tt)
    All-insert_by a (x ∷ xs) p ps = elim (Bool-cases (less x a)) [
      | inl e ↦ rw e (ps.0, All-insert_by a xs p ps.1)
      | inr e ↦ rw e (p, ps)
    ]

    pub All-sort_by : (xs : List A) → All P xs → All P (sort_by less xs)
    unfolding sort_by
    All-sort_by [] ps = tt
    All-sort_by (x ∷ xs) ps = All-insert_by x (sort_by less xs) ps.0 (All-sort_by xs ps.1)

    All-of_All-insert_by : (a : A) (xs : List A) → All P (insert_by less a xs) → P a × All P xs
    All-of_All-insert_by a [] ps = (ps.0, tt)
    All-of_All-insert_by a (x ∷ xs) ps = elim (Bool-cases (less x a)) [
      | inl e ↦
          let qs : P x × All P (insert_by less a xs) = rw e at ps in
          let rs = All-of_All-insert_by a xs qs.1 in (rs.0, (qs.0, rs.1))
      | inr e ↦ let qs : P a × (P x × All P xs) = rw e at ps in qs
    ]

    pub All-of_All-sort_by : (xs : List A) → All P (sort_by less xs) → All P xs
    unfolding sort_by
    All-of_All-sort_by [] ps = tt
    All-of_All-sort_by (x ∷ xs) ps =
        let qs = All-of_All-insert_by x (sort_by less xs) ps in (qs.0, All-of_All-sort_by xs qs.1)

  -- No later element should stand before an earlier one.
  abbrev pub IsSorted : List A → Type 0
  IsSorted [] = Unit
  IsSorted (x ∷ xs) = All (λ y. less y x ≡ false) xs × IsSorted xs

  -- What the documentation asks of a comparison: a strict weak ordering.
  pub record IsStrictWeak : Type ℓ where
    pub asym : (a b : A) → less a b ≡ true → less b a ≡ false
    pub not_trans : (a b c : A) → less b a ≡ false → less c b ≡ false → less c a ≡ false

  module _ (w : IsStrictWeak) where
    All-not_trans :
        (a x : A) (xs : List A)
        → less x a ≡ false
        → All (λ y. less y x ≡ false) xs
        → All (λ y. less y a ≡ false) xs
    All-not_trans a x [] h ps = tt
    All-not_trans a x (y ∷ ys) h ps = (w.not_trans a x y h ps.0, All-not_trans a x ys h ps.1)

    insert_by-IsSorted : (a : A) (xs : List A) → IsSorted xs → IsSorted (insert_by less a xs)
    insert_by-IsSorted a [] s = (tt, tt)
    insert_by-IsSorted a (x ∷ xs) s = elim (Bool-cases (less x a)) [
      | inl e ↦ rw e (
        All-insert_by (λ y. less y x ≡ false) a xs (w.asym x a e) s.0,
        insert_by-IsSorted a xs s.1,
      )
      | inr e ↦ rw e ((e, All-not_trans a x xs e s.0), s)
    ]

    pub sort_by-IsSorted : (xs : List A) → IsSorted (sort_by less xs)
    unfolding sort_by
    sort_by-IsSorted [] = tt
    sort_by-IsSorted (x ∷ xs) = insert_by-IsSorted x (sort_by less xs) (sort_by-IsSorted xs)
