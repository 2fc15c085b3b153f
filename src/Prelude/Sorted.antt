-- ===== src/Prelude/Sorted.antt =====
-- Lists of references in descending order of a key, and how insertion, removal and a change of one
-- key keep that order.
use Prim.Native.Nat.{ℕ}
use mathlib.Core.Path.{◌≡◌, subst, fun_ext}
use mathlib.Core.Bool.{false}
use mathlib.Core.List.{List, [], ◌∷◌, ◌++◌}
use native.Mathlib.Omega.{arith}
use sabnzbd.Prelude.Tests.{◌==◌, or_false}
use sabnzbd.Prelude.Lists.{All}
use sabnzbd.Prelude.Membership.{contains, remove_one}
use sabnzbd.Prelude.Int.{ℤ, ◌≤ℤ◌}

abbrev pub Descending : (ℕ → ℤ) → List ℕ → Type 0
Descending f [] = Unit
Descending f (x ∷ xs) = All (λ y. f y ≤ℤ f x) xs × Descending f xs

module _ (f : ℕ → ℤ) where
  -- An element that stands below all of `xs` and above all of `ys` fits between them.
  pub insert-Descending :
      (a : ℕ) (xs ys : List ℕ)
      → Descending f (xs ++ ys)
      → All (λ x. f a ≤ℤ f x) xs
      → All (λ y. f y ≤ℤ f a) ys
      → Descending f (xs ++ a ∷ ys)
  insert-Descending a [] ys d above below = (below, d)
  insert-Descending a (x ∷ xs) ys d above below =
      (insert_All xs d.0, insert-Descending a xs ys d.1 above.1 below)
    where
      insert_All :
          (zs : List ℕ) → All (λ y. f y ≤ℤ f x) (zs ++ ys) → All (λ y. f y ≤ℤ f x) (zs ++ a ∷ ys)
      insert_All [] h = (above.0, h)
      insert_All (z ∷ zs) h = (h.0, insert_All zs h.1)

  pub All-remove_one :
      (a : ℕ) (b : ℤ) (xs : List ℕ) → All (λ y. f y ≤ℤ b) xs → All (λ y. f y ≤ℤ b) (remove_one a xs)
  All-remove_one a b [] h = tt
  All-remove_one a b (x ∷ xs) h = ground (arith, All-remove_one a b xs h.1)

  pub remove_one-Descending :
      (a : ℕ) (xs : List ℕ) → Descending f xs → Descending f (remove_one a xs)
  remove_one-Descending a [] d = tt
  remove_one-Descending a (x ∷ xs) d =
      ground (arith, All-remove_one a (f x) xs d.0, remove_one-Descending a xs d.1)

-- The key of a reference that the list does not hold is of no account.
module _ (f g : ℕ → ℤ) (a : ℕ) (same : (x : ℕ) → (x == a) ≡ false → f x ≡ g x) where
  pub All-change :
      (b : ℤ) (xs : List ℕ)
      → contains a xs ≡ false
      → All (λ y. f y ≤ℤ b) xs
      → All (λ y. g y ≤ℤ b) xs
  All-change b [] out h = tt
  All-change b (x ∷ xs) out h = ground (arith, same x, All-change b xs)

  pub Descending-change : (xs : List ℕ) → contains a xs ≡ false → Descending f xs → Descending g xs
  Descending-change [] out d = tt
  Descending-change (x ∷ xs) out d =
      let (head, tail) = or_false (x == a) (contains a xs) out in
      (
        subst (λ b. All (λ y. g y ≤ℤ b) xs) (same x head) (All-change (f x) xs tail d.0),
        Descending-change xs tail d.1,
      )

module _ (f g : ℕ → ℤ) (same : (x : ℕ) → f x ≡ g x) where
  pub Descending-ext : (xs : List ℕ) → Descending f xs → Descending g xs
  Descending-ext xs d = subst (λ h. Descending h xs) (fun_ext same) d
