-- ===== src/Queue/Switch/Rank.antt =====
-- sabnzbd/nzbqueue.py: the priority of the job that `switch` moves.
use sabnzbd.Prelude.{
  ◌⊎◌, ℕ, zero, suc, ◌≡◌, refl, subst, if◌then◌else◌, Option, none, some, List, [], ◌∷◌, get_elem?,
  contains, arith, inl, inr, ℤ, pos, negsuc, ◌≤ℤ◌,
}
use sabnzbd.Prelude.Sorted.{Descending}
use sabnzbd.Queue.State.{Queue, IsValid, priority_of, rank, rank_of}
use sabnzbd.Queue.Switch.{Target, key, index, target_id, below_target, priority_below, adjusted}

-- The adjusted priority ranks as the target, if the job moves up, or if it moves down and the job
-- below the target does not rank above it.
adjusted_up : (p1 p2 : ℤ) (p3 : Option ℤ) → rank p1 ≤ℤ rank p2 → rank (adjusted p1 p2 p3) ≡ rank p2
unfolding adjusted
adjusted_up p1 p2 none h = refl
adjusted_up p1 p2 (some p3) h = ground arith

adjusted_down :
    (p1 p2 p3 : ℤ)
    → rank p2 ≤ℤ rank p1
    → rank p3 ≤ℤ rank p2
    → rank (adjusted p1 p2 (some p3)) ≡ rank p2
unfolding adjusted
adjusted_down p1 p2 p3 h k = ground arith

pub rank-adjusted :
    (p1 p2 : ℤ) (p3 : Option ℤ)
    → ((p : ℤ) → p3 ≡ some p → rank p ≤ℤ rank p2)
    → rank (adjusted p1 p2 p3) ≡ rank p2
rank-adjusted p1 p2 none h = unfold adjusted in refl
rank-adjusted p1 p2 (some p3) h = elim (total (rank p1) (rank p2)) [
  | inl le ↦ adjusted_up p1 p2 (some p3) le
  | inr ge ↦ adjusted_down p1 p2 p3 ge (h p3 refl)
]
  where
    total : (a b : ℤ) → (a ≤ℤ b) ⊎ (b ≤ℤ a)
    total a b = omega arith

-- An index that does not count from the end.
abbrev pub IsPlain : Target → Type 0
IsPlain (key id) = Unit
IsPlain (index (pos n)) = Unit
IsPlain (index (negsuc n)) = ⊥

below_index :
    (f : ℕ → ℤ) (b c n : ℕ) (xs : List ℕ)
    → Descending f xs
    → get_elem? xs n ≡ some b
    → get_elem? xs (suc n) ≡ some c
    → f c ≤ℤ f b
below_index f b c n [] d eb ec = absurd (cc)
below_index f b c zero (x ∷ []) d eb ec = absurd (cc)
below_index f b c zero (x ∷ (y ∷ xs)) d eb ec =
    subst (λ i. f i ≤ℤ f b) (same y c ec) (subst (λ i. f y ≤ℤ f i) (same x b eb) d.0.0)
  where
    same : (m n : ℕ) → some m ≡ some n → m ≡ n
    same m n e = ground arith
below_index f b c (suc n) (x ∷ xs) d eb ec = below_index f b c n xs d.1 eb ec

-- The job below the target does not rank above it.
pub below_rank :
    (q : Queue) (target : Target) (b : ℕ)
    → IsValid q
    → IsPlain target
    → target_id q.nzo_list target ≡ some b
    → (p : ℤ) → priority_below q (below_target q.nzo_list target) ≡ some p
    → rank p ≤ℤ rank_of q.jobs b
below_rank q (key id) b v plain e p h = absurd (cc)
below_rank q (index (pos n)) b v plain e p h = go (get_elem? q.nzo_list (suc n)) refl h
  where
    go :
        (o : Option ℕ)
        → get_elem? q.nzo_list (suc n) ≡ o
        → priority_below q o ≡ some p
        → rank p ≤ℤ rank_of q.jobs b
    go none at k = absurd (cc)
    go (some c) at k =
        subst (λ r. rank r ≤ℤ rank_of q.jobs b) (priority_is c k)
          (below_index (rank_of q.jobs) b c n q.nzo_list v.ordered e at)
      where
        priority_is :
            (c : ℕ)
            → (if contains c q.nzo_table then some (priority_of q.jobs c) else none) ≡ some p
            → priority_of q.jobs c ≡ p
        priority_is c k = ground arith
below_rank q (index (negsuc n)) b v plain e p h = absurd plain
