-- ===== src/ManagedVersion/Overlay/Stable.antt =====
-- The overlay in force between two reconciliations.
use openshift_upgrade_contro.Prelude.{
  ◌≡◌, refl, subst, Bool, true, false, not, ◌||◌, none, some, List, [], ◌∷◌, find_first, All,
  Bool-cases, Option-cases, inl, inr, arith,
}
use openshift_upgrade_contro.Prelude.Int.{ℤ, pos, negsuc, ◌≤ℤ◌, ◌<ℤ◌, ◌+ℤ◌, ◌-ℤ◌, int_laws}
use openshift_upgrade_contro.Prelude.Sort.{sort_by}
use openshift_upgrade_contro.Prelude.Sort.Laws.{IsSorted, sort_by-IsSorted}
use openshift_upgrade_contro.Api.Time.{Time, before, equal, sub_time, saturate}
use openshift_upgrade_contro.Api.Managed.{Overlay}
use openshift_upgrade_contro.ManagedVersion.Overlay.{
  comes_first, sort_overlays_by_from, used_overlay, next_overlay, next_requeue,
}
use openshift_upgrade_contro.ManagedVersion.Overlay.Laws.{
  comes_first-IsStrictWeak, not_first, find_last, find_first-reverse, has_begun,
}

saturate_le : (d : ℤ) → pos 0 <ℤ d → saturate d ≤ℤ d
saturate_le (pos n) h = ground arith
saturate_le (negsuc n) h = absurd (omega arith)

abbrev is_next : Time → Overlay → Bool
is_next now o = not (before o.from now || equal o.from now)

not_next : (now : Time) (o : Overlay) → is_next now o ≡ false → o.from ≤ℤ now
not_next now o h = ground arith

next_later : (now : Time) (o : Overlay) → is_next now o ≡ true → now <ℤ o.from
next_later now o h = ground arith

-- An overlay begins as little between `now` and `t` as it has at both.
begun_same :
    (now t : Time) (o : Overlay)
    → now ≤ℤ t
    → (now <ℤ o.from → t <ℤ o.from)
    → has_begun t o ≡ has_begun now o
begun_same now t o le h = elim (Bool-cases (before now o.from)) [
  | inl e ↦ let l = h (ground arith) in ground arith
  | inr e ↦ ground arith
]

module _ (now t : Time) (le : now ≤ℤ t) where
  find_last_same :
      (xs : List Overlay)
      → All (λ o. now <ℤ o.from → t <ℤ o.from) xs
      → find_last (has_begun t) xs ≡ find_last (has_begun now) xs
  find_last_same [] hs = refl
  find_last_same (x ∷ xs) hs = rw (find_last_same xs hs.1) (rw (begun_same now t x le hs.0) refl)

  none_next :
      (xs : List Overlay)
      → find_first (is_next now) xs ≡ none
      → All (λ o. now <ℤ o.from → t <ℤ o.from) xs
  none_next [] e = tt
  none_next (x ∷ xs) e = elim (Bool-cases (is_next now x)) [
    | inl b ↦ let e' : some x ≡ none = rw b at e in cc
    | inr b ↦ let l = not_next now x b in ((λ h. absurd (omega arith)), none_next xs (rw b at e))
  ]

  before-All :
      (x : Overlay) (xs : List Overlay)
      → t <ℤ x.from
      → All (λ y. comes_first y x ≡ false) xs
      → All (λ o. now <ℤ o.from → t <ℤ o.from) xs
  before-All x [] h s = tt
  before-All x (y ∷ ys) h s =
      let l = not_first y x s.0 in ((λ _. omega arith), before-All x ys h s.1)

  before_next :
      (o : Overlay) (xs : List Overlay)
      → IsSorted comes_first xs
      → find_first (is_next now) xs ≡ some o
      → t <ℤ o.from
      → All (λ q. now <ℤ q.from → t <ℤ q.from) xs
  before_next o [] s e h = tt
  before_next o (x ∷ xs) s e h = elim (Bool-cases (is_next now x)) [
    | inl b ↦
        let e' : some x ≡ some o = rw b at e in
        let q : o ≡ x = cc in
        let h' : t <ℤ x.from = subst (λ (y : Overlay). t <ℤ y.from) q h in
        ((λ _. h'), before-All x xs h' s.0)
    | inr b ↦
        let l = not_next now x b in
        ((λ k. absurd (omega arith)), before_next o xs s.1 (rw b at e) h)
  ]

  find_first-next :
      (o : Overlay) (xs : List Overlay) → find_first (is_next now) xs ≡ some o → now <ℤ o.from
  find_first-next o [] e = cc
  find_first-next o (x ∷ xs) e = elim (Bool-cases (is_next now x)) [
    | inl b ↦
        let e' : some x ≡ some o = rw b at e in
        let q : x ≡ o = cc in subst (λ (y : Overlay). now <ℤ y.from) q (next_later now x b)
    | inr b ↦ find_first-next o xs (rw b at e)
  ]

  -- The overlay that is used is the same at every instant from `now` on, as long as the time after which
  -- the controller asks to be called again has not passed; for good, if it asks for nothing.
  pub next_requeue-used_overlay :
      (overlays : List Overlay)
      → ((next_requeue overlays now).requeue ≡ true
          → t <ℤ now +ℤ (next_requeue overlays now).requeue_after)
      → used_overlay overlays t ≡ used_overlay overlays now
  unfolding used_overlay sort_overlays_by_from next_requeue next_overlay
  next_requeue-used_overlay overlays h =
      let xs = sort_by comes_first overlays in
      rw (find_first-reverse (has_begun t) xs) (
        rw (find_first-reverse (has_begun now) xs) (
          find_last_same xs (elim (Option-cases (find_first (is_next now) xs)) [
            | inl e ↦ none_next xs e
            | inr (o, e) ↦
                let l = find_first-next o xs e in
                let h' : t <ℤ now +ℤ sub_time o.from now = (rw e at h) refl in
                let d : pos 0 <ℤ o.from -ℤ now = omega int_laws in
                let k = saturate_le (o.from -ℤ now) d in
                before_next o xs (sort_by-IsSorted comes_first comes_first-IsStrictWeak overlays) e
                  (let h2 : t <ℤ now +ℤ saturate (o.from -ℤ now) = unfold sub_time in h' in
                    omega int_laws)
          ])))
