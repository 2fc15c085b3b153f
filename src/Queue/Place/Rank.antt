-- ===== src/Queue/Place/Rank.antt =====
-- sabnzbd/nzbqueue.py: how the tests of `place` on priorities compare ranks.

use sabnzbd.Prelude.{
  All-map, ℕ, ◌≡◌, true, false, List, [], ◌∷◌, ◌++◌, All, ℤ, ltb_ℤ, eqb_ℤ, ◌≤ℤ◌, arith,
}
use sabnzbd.Prelude.Sorted.{Descending}
use sabnzbd.Job.{normal_priority, high_priority, low_priority}
use sabnzbd.Queue.State.{rank}

pub not_lower : (a b : ℤ) → ltb_ℤ a b ≡ false → b ≤ℤ a
not_lower a b h = ground arith

rank_mono : (a b : ℤ) → a ≤ℤ b → rank a ≤ℤ rank b
rank_mono a b h = ground arith

pub rank-le_of_lower : (a b : ℤ) → ltb_ℤ a b ≡ true → rank a ≤ℤ rank b
rank-le_of_lower a b h = ground arith

pub All-rank :
    (f : ℕ → ℤ) (p : ℤ) (xs : List ℕ) → All (λ x. p ≤ℤ f x) xs → All (λ x. rank p ≤ℤ rank (f x)) xs
All-rank f p xs h =
    All-map (λ x. p ≤ℤ f x) (λ x. rank p ≤ℤ rank (f x)) xs (λ x. rank_mono p (f x)) h

pub All-below :
    (f : ℕ → ℤ) (a b : ℤ) (xs : List ℕ)
    → a ≤ℤ b
    → All (λ x. rank (f x) ≤ℤ a) xs
    → All (λ x. rank (f x) ≤ℤ b) xs
All-below f a b xs h all =
    All-map (λ x. rank (f x) ≤ℤ a) (λ x. rank (f x) ≤ℤ b) xs (λ x k. omega arith) all

pub Descending-suffix :
    (f : ℕ → ℤ) (before after : List ℕ) → Descending f (before ++ after) → Descending f after
Descending-suffix f [] after d = d
Descending-suffix f (x ∷ before) after d = Descending-suffix f before after d.1

pub rank-lt_of_lower :
    (a p : ℤ)
    → ltb_ℤ a p ≡ true
    → normal_priority ≤ℤ p
    → p ≤ℤ high_priority
    → ltb_ℤ (rank a) (rank p) ≡ true
rank-lt_of_lower a p h low high = ground arith

pub All-strict :
    (f : ℕ → ℤ) (p b : ℤ) (xs : List ℕ)
    → ltb_ℤ (rank b) (rank p) ≡ true
    → All (λ x. rank (f x) ≤ℤ rank b) xs
    → All (λ x. ltb_ℤ (rank (f x)) (rank p) ≡ true) xs
All-strict f p b xs h all =
    All-map (λ x. rank (f x) ≤ℤ rank b) (λ x. ltb_ℤ (rank (f x)) (rank p) ≡ true) xs
      (λ x k. le_lt (rank (f x)) (rank b) (rank p) k h) all
  where
    le_lt : (a b c : ℤ) → a ≤ℤ b → ltb_ℤ b c ≡ true → ltb_ℤ a c ≡ true
    le_lt a b c k l = ground arith

-- Nothing ranks above Force or below Low.
rank-le_top : (a p : ℤ) → ltb_ℤ high_priority p ≡ true → rank a ≤ℤ rank p
rank-le_top a p h = ground arith

bottom-le-rank : (a p : ℤ) → eqb_ℤ p low_priority ≡ true → rank p ≤ℤ rank a
bottom-le-rank a p h = ground arith

pub at_most_top :
    (f : ℕ → ℤ) (p : ℤ) (xs : List ℕ)
    → ltb_ℤ high_priority p ≡ true
    → All (λ x. rank (f x) ≤ℤ rank p) xs
at_most_top f p [] h = tt
at_most_top f p (x ∷ xs) h = (rank-le_top (f x) p h, at_most_top f p xs h)

pub at_least_bottom :
    (f : ℕ → ℤ) (p : ℤ) (xs : List ℕ)
    → eqb_ℤ p low_priority ≡ true
    → All (λ x. rank p ≤ℤ rank (f x)) xs
at_least_bottom f p [] h = tt
at_least_bottom f p (x ∷ xs) h = (bottom-le-rank (f x) p h, at_least_bottom f p xs h)
