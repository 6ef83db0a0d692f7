-- ===== src/Prelude/Counts.antt =====
-- Sums of a weight over the elements of a list, under writes at an index.
use Prim.Native.Nat.{ℕ, zero, suc, ◌+◌, ◌<◌, ◌≤◌}
use mathlib.Core.Path.{◌≡◌, subst}
use mathlib.Core.List.{List, [], ◌∷◌}
use native.Mathlib.Omega.{arith}
use nexus_ftp_engine.Prelude.Lists.{length, get_or, set}

abbrev pub total {ℓ} : {A : Type ℓ} → (A → ℕ) → List A → ℕ
total f [] = 0
total f (w ∷ ws) = f w + total f ws

module _ {ℓ} {A : Type ℓ} (f : A → ℕ) where
  total-set :
      (ws : List A) (i : ℕ) (w d : A)
      → i < length ws
      → total f (set ws i w) + f (get_or ws i d) ≡ total f ws + f w
  total-set [] i w d h = absurd (omega (arith, h))
  total-set (x ∷ ws) zero w d h = omega arith
  total-set (x ∷ ws) (suc i) w d h = omega (arith, total-set ws i w d (omega (arith, h)))

  -- The same, when the element is known.
  pub total-from :
      (ws : List A) (i : ℕ) (v w d : A)
      → i < length ws
      → get_or ws i d ≡ v
      → total f (set ws i w) + f v ≡ total f ws + f w
  total-from ws i v w d h e =
      subst (λ x. total f (set ws i w) + f x ≡ total f ws + f w) e (total-set ws i w d h)

  total-pos : (ws : List A) (i : ℕ) (d : A) → i < length ws → f (get_or ws i d) ≤ total f ws
  total-pos [] i d h = absurd (omega (arith, h))
  total-pos (w ∷ ws) zero d h = omega arith
  total-pos (w ∷ ws) (suc i) d h = omega (arith, total-pos ws i d (omega (arith, h)))

  -- A known element is counted.
  pub total-at :
      (ws : List A) (i : ℕ) (v d : A) → i < length ws → get_or ws i d ≡ v → f v ≤ total f ws
  total-at ws i v d h e = subst (λ x. f x ≤ total f ws) e (total-pos ws i d h)

  -- With weights up to 1, the sum is at most the length.
  pub total_bound : ((w : A) → f w ≤ 1) → (ws : List A) → total f ws ≤ length ws
  total_bound b [] = omega arith
  total_bound b (w ∷ ws) = omega (arith, b w, total_bound b ws)
