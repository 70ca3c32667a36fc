-- ===== src/Schedule/NextN.antt =====
-- The list that `NextN` builds.
use openshift_upgrade_contro.Prelude.{
  ℕ, zero, suc, ◌<◌, ◌≡◌, refl, ap, inl, inr, Option, none, some, List, [], ◌∷◌, length, arith,
}
use openshift_upgrade_contro.Prelude.Int.{◌<ℤ◌}
use openshift_upgrade_contro.Api.Time.{Time}
use openshift_upgrade_contro.Exec.{Error, ok, err, Result-cases}
use openshift_upgrade_contro.Schedule.{Schedule, next, next_n}

module _ (s : Schedule) where
  -- Each time is what `Next` gives for the one before it.
  abbrev pub IsChain : Time → List Time → Type 0
  IsChain t [] = Unit
  IsChain t (u ∷ us) = (next s t ≡ ok u) × IsChain u us

  abbrev pub last_of : Time → List Time → Time
  last_of t [] = t
  last_of t (u ∷ us) = last_of u us

  abbrev pub Rises : Time → List Time → Type 0
  Rises t [] = Unit
  Rises t (u ∷ us) = (t <ℤ u) × Rises u us

  -- How the search ended: with `n` times, or with the error of `Next` at the last of fewer.
  abbrev pub EndsWith : Time → ℕ → List Time × Option Error → Type 0
  EndsWith t n (ts, none) = length ts ≡ n
  EndsWith t n (ts, some e) = (length ts < n) × (next s (last_of t ts) ≡ err e)

  Chain-cons :
      (t u : Time) (n : ℕ) (r : List Time × Option Error)
      → next s t ≡ ok u
      → IsChain u r.0 × EndsWith u n r
      → IsChain t (u ∷ r.0) × EndsWith t (suc n) (u ∷ r.0, r.1)
  Chain-cons t u n (us, none) h (c, e) = ((h, c), ap suc e)
  Chain-cons t u n (us, some x) h (c, (l, e)) = ((h, c), (omega arith, e))

  -- `NextN` returns a chain of times, each what `Next` gives for the one before it; either it has
  -- `n` times and no error, or it has fewer and the error is that of `Next` at the last of them.
  pub next_n-IsChain : (t : Time) (n : ℕ) → IsChain t (next_n s t n).0 × EndsWith t n (next_n s t n)
  unfolding next_n
  next_n-IsChain t zero = (tt, refl)
  next_n-IsChain t (suc n) = elim (Result-cases (next s t)) [
    | inl (e, q) ↦ rw (q, next_n) (tt, (omega arith, q))
    | inr (u, q) ↦ rw (q, next_n) (Chain-cons t u n (next_n s u n) q (next_n-IsChain u n))
  ]

  -- If `Next` moves time forward, the times of `NextN` rise.
  pub next_n-Rises :
      ((t u : Time) → next s t ≡ ok u → t <ℤ u)
      → (t : Time) (us : List Time) → IsChain t us
      → Rises t us
  next_n-Rises moves t [] c = tt
  next_n-Rises moves t (u ∷ us) c = (moves t u c.0, next_n-Rises moves u us c.1)
