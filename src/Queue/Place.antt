-- ===== src/Queue/Place.antt =====
-- sabnzbd/nzbqueue.py: where `add` and `__set_priority` insert a job in the list.
pub mod Position
pub mod Rank
use native.Mathlib.Nat.{zero-add}
use sabnzbd.Prelude.{
  sym, append-nil, subst, ◌∙◌, All-map, ap, ℕ, zero, suc, ◌+◌, ◌≡◌, refl, Bool, true, false, ◌||◌,
  Bool-cases, inl, inr, ◌==◌, if◌then◌else◌, Option, none, some, List, [], ◌∷◌, ◌++◌, length,
  insert_at, All, contains, Distinct, ℤ, ltb_ℤ, eqb_ℤ, ◌≤ℤ◌, arith, contains-append, get_elem?,
}
use sabnzbd.Prelude.Sorted.{Descending, insert-Descending}
use sabnzbd.Job.{high_priority, low_priority}
use sabnzbd.Queue.State.{rank}

-- The loop that looks for the first job of a lower priority.
unfoldable pub first_lower : (ℕ → ℤ) → ℤ → ℕ → List ℕ → Option ℕ
first_lower f p n [] = none
first_lower f p n (x ∷ xs) =
    let rest = first_lower f p (n + 1) xs in if ltb_ℤ (f x) p then some n else rest

-- The position at which a job of high or normal priority is inserted, and the list with it.
unfoldable pub place_below : (ℕ → ℤ) → ℤ → ℕ → List ℕ → ℕ × List ℕ
unfolding first_lower
place_below f p id xs = elim (first_lower f p 0 xs) [
  | some n ↦ (n, insert_at n id xs)
  | none ↦ (length xs, xs ++ id ∷ [])
]

-- `add`: jobs above High go to the top, jobs of Low to the bottom, others below their equals.
unfoldable pub place : (ℕ → ℤ) → ℤ → ℕ → List ℕ → List ℕ
place f p id xs =
    if ltb_ℤ high_priority p
    then id ∷ xs
    else if eqb_ℤ p low_priority
    then xs ++ id ∷ []
    else (place_below f p id xs).1
