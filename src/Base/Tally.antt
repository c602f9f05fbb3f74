-- ===== src/Base/Tally.antt =====
-- Sums of a weight over a list: they do not depend on the order, and a weight of 1 somewhere shows
-- in the sum.
use Prim.Native.Nat.{ℕ, zero, suc, ◌+◌, ◌≤◌, ◌<◌}
use mathlib.Core.Path.{◌≡◌, refl, sym, ◌∙◌, ap}
use mathlib.Core.HLevel.{hedberg}
use mathlib.Core.List.{List, [], ◌∷◌, foldr, Perm}
use mathlib.Core.List.Perm
use native.Mathlib.Decide.{ℕ_discrete, dec_le}
use native.Mathlib.Omega.{arith}
use usloss.Base.Lists.{length, get_or, replicate}

module _ {ℓ} {A : Type ℓ} (w : A → ℕ) where
  abbrev pub tally : List A → ℕ
  tally [] = 0
  tally (x ∷ xs) = w x + tally xs

  tally-foldr : (xs : List A) → tally xs ≡ foldr (λ x n. w x + n) 0 xs
  tally-foldr [] = refl
  tally-foldr (x ∷ xs) = ap (λ n. w x + n) (tally-foldr xs)

  pub tally-Perm : {xs ys : List A} → Perm xs ys → tally xs ≡ tally ys
  tally-Perm {xs} {ys} p =
      tally-foldr xs
      ∙ (Perm.foldr-eq (hedberg ℕ_discrete) (λ x n. w x + n) (λ x y n. omega arith) p 0
          ∙ sym (tally-foldr ys))

  -- A sum that is not 0 has an element of a weight that is not 0.
  pub tally-find :
      (xs : List A) (d : A) → 1 ≤ tally xs → (i : ℕ) × (i < length xs) × (1 ≤ w (get_or xs i d))
  tally-find [] d h = absurd (omega arith)
  tally-find (x ∷ xs) d h = elim (dec_le 1 (w x)) [
    | yes here ↦ (0, omega arith, here)
    | no nothing ↦ let (i, lt, e) = tally-find xs d (omega arith) in (suc i, omega arith, e)
  ]

  pub tally-replicate : (n : ℕ) (a : A) → w a ≡ 0 → tally (replicate n a) ≡ 0
  tally-replicate zero a e = refl
  tally-replicate (suc n) a e = omega (arith, e, tally-replicate n a e)

  tally-le : (xs : List A) → ((x : A) → w x ≤ 1) → tally xs ≤ length xs
  tally-le [] le = omega arith
  tally-le (x ∷ xs) le = omega (arith, le x, tally-le xs le)

  -- A sum of weights up to 1 that reaches the length has no other weight.
  pub tally-full :
      (xs : List A) (d : A) (i : ℕ)
      → ((x : A) → w x ≤ 1)
      → tally xs ≡ length xs
      → i < length xs
      → w (get_or xs i d) ≡ 1
  tally-full [] d i le e h = absurd (omega arith)
  tally-full (x ∷ xs) d zero le e h = omega (arith, le x, tally-le xs le)
  tally-full (x ∷ xs) d (suc i) le e h =
      tally-full xs d i le (omega (arith, le x, tally-le xs le)) (omega arith)
