-- ===== src/Queue/Sort/Order.antt =====
-- sabnzbd/nzbqueue.py: the order that `sort_queue` leaves.
use sabnzbd.Prelude.{
  ℕ, ◌≡◌, refl, Bool, true, false, List, [], ◌∷◌, some, All, All-map, ◌≤ℤ◌, arith, Bool-cases, inl,
  inr, ◌≢◌,
}
use sabnzbd.Prelude.Sorted.{Descending}
use sabnzbd.Job.{Nzo, Text}
use sabnzbd.Queue.State.{Queue, rank_of}
use sabnzbd.Queue.Sort.{
  insert_sorted, sort, sort_queue, SortField, name, size, avg_age, remaining_part, key_lt, field_lt,
  priority_gt, lt_text, lower, flip_if,
}

-- Every element stands in the relation to all that follow it.
abbrev pub Chain : (ℕ → ℕ → Type 0) → List ℕ → Type 0
Chain R [] = Unit
Chain R (x ∷ xs) = All (R x) xs × Chain R xs

-- `lt` is the strict part of a total preorder.
pub record IsOrder {ℓ} {A : Type ℓ} (lt : A → A → Bool) : Type ℓ where
  pub asym : (a b : A) → lt a b ≡ true → lt b a ≡ false
  pub trans : (a b c : A) → lt b a ≡ false → lt c b ≡ false → lt c a ≡ false

-- `x` may stand before `y`: it is not after it, and equals are in the order `K`.
abbrev pub Before : (ℕ → ℕ → Bool) → (ℕ → ℕ → Type 0) → ℕ → ℕ → Type 0
Before lt K x y = (lt y x ≡ false) × (lt x y ≡ false → K x y)

module _ (lt : ℕ → ℕ → Bool) where
  All-insert_sorted :
      (P : ℕ → Type 0) (x : ℕ) (xs : List ℕ) → P x → All P xs → All P (insert_sorted lt x xs)
  unfolding insert_sorted
  All-insert_sorted P x [] p h = (p, tt)
  All-insert_sorted P x (y ∷ ys) p h = elim (Bool-cases (lt y x)) [
    | inl e ↦ rw e (h.0, All-insert_sorted P x ys p h.1)
    | inr e ↦ rw e (p, h)
  ]

  All-sort : (P : ℕ → Type 0) (xs : List ℕ) → All P xs → All P (sort lt xs)
  unfolding sort
  All-sort P [] h = tt
  All-sort P (x ∷ xs) h = All-insert_sorted P x (sort lt xs) h.0 (All-sort P xs h.1)

module _ (lt : ℕ → ℕ → Bool) (order : IsOrder lt) (K : ℕ → ℕ → Type 0) where
  Before-All :
      (x y : ℕ) (ys : List ℕ)
      → lt y x ≡ false
      → All (Before lt K y) ys
      → All (K x) ys
      → All (Before lt K x) ys
  Before-All x y [] e h k = tt
  Before-All x y (z ∷ zs) e h k =
      ((order.trans x y z e h.0.0, λ _. k.0), Before-All x y zs e h.1 k.1)

  insert_sorted-Chain :
      (x : ℕ) (xs : List ℕ)
      → All (K x) xs
      → Chain (Before lt K) xs
      → Chain (Before lt K) (insert_sorted lt x xs)
  unfolding insert_sorted
  insert_sorted-Chain x [] k c = (tt, tt)
  insert_sorted-Chain x (y ∷ ys) k c = elim (Bool-cases (lt y x)) [
    | inl e ↦ rw e (
      All-insert_sorted lt (Before lt K y) x ys (order.asym y x e, λ f. absurd (true≢false e f))
          c.0,
      insert_sorted-Chain x ys k.1 c.1,
    )
    | inr e ↦ rw e (((e, λ _. k.0), Before-All x y ys e c.0 k.1), c)
  ]
    where
      true≢false : lt y x ≡ true → lt y x ≡ false → ⊥
      true≢false p q = cc

  sort-Chain : (xs : List ℕ) → Chain K xs → Chain (Before lt K) (sort lt xs)
  unfolding sort
  sort-Chain [] k = tt
  sort-Chain (x ∷ xs) k =
      insert_sorted-Chain x (sort lt xs) (All-sort lt (K x) xs k.0) (sort-Chain xs k.1)

Chain-map :
    (R S : ℕ → ℕ → Type 0) (xs : List ℕ) → ((x y : ℕ) → R x y → S x y) → Chain R xs → Chain S xs
Chain-map R S [] f c = tt
Chain-map R S (x ∷ xs) f c = (All-map (R x) (S x) xs (f x) c.0, Chain-map R S xs f c.1)

All-trivial : (xs : List ℕ) → All {0, 0} (λ _. Unit) xs
All-trivial [] = tt
All-trivial (x ∷ xs) = (tt, All-trivial xs)

Chain-trivial : (xs : List ℕ) → Chain (λ _ _. Unit) xs
Chain-trivial [] = tt
Chain-trivial (x ∷ xs) = (All-trivial xs, Chain-trivial xs)

priority_gt-IsOrder : (jobs : ℕ → Nzo) → IsOrder (priority_gt jobs)
priority_gt-IsOrder jobs = record {
  asym = λ a b h. ground arith;
  trans = λ a b c h k. ground arith;
}

-- Higher priorities first; among jobs of one priority in the order of the field.
abbrev pub InQueueOrder : (ℕ → Nzo) → SortField → Bool → ℕ → ℕ → Type 0
InQueueOrder jobs field desc =
    Before (priority_gt jobs) (λ x y. field_lt field desc jobs y x ≡ false)

Chain-sort_queue :
    (q : Queue) (field : SortField) (desc : Bool)
    → IsOrder (field_lt field desc q.jobs)
    → Chain (InQueueOrder q.jobs field desc) (sort_queue (some field) desc q).nzo_list
unfolding sort_queue
Chain-sort_queue q field desc order =
    let by_field =
      sort-Chain (field_lt field desc q.jobs) order (λ _ _. Unit) q.nzo_list
        (Chain-trivial q.nzo_list) in
    sort-Chain (priority_gt q.jobs) (priority_gt-IsOrder q.jobs)
      (λ x y. field_lt field desc q.jobs y x ≡ false) (sort (field_lt field desc q.jobs) q.nzo_list)
      (Chain-map (Before (field_lt field desc q.jobs) (λ _ _. Unit))
        (λ x y. field_lt field desc q.jobs y x ≡ false)
        (sort (field_lt field desc q.jobs) q.nzo_list) (λ x y h. h.0) by_field)

priority_gt-rank :
    (jobs : ℕ → Nzo) (x y : ℕ) → priority_gt jobs y x ≡ false → rank_of jobs y ≤ℤ rank_of jobs x
priority_gt-rank jobs x y h = ground arith

Chain-Descending :
    (jobs : ℕ → Nzo) (K : ℕ → ℕ → Type 0) (xs : List ℕ)
    → Chain (Before (priority_gt jobs) K) xs
    → Descending (rank_of jobs) xs
Chain-Descending jobs K [] c = tt
Chain-Descending jobs K (x ∷ xs) c = (
  All-map (Before (priority_gt jobs) K x) (λ y. rank_of jobs y ≤ℤ rank_of jobs x) xs
      (λ y h. priority_gt-rank jobs x y h.0) c.0,
  Chain-Descending jobs K xs c.1,
)

-- Whatever the order before, the last sort puts the list in order of priority.
pub sort-Descending :
    (jobs : ℕ → Nzo) (xs : List ℕ) → Descending (rank_of jobs) (sort (priority_gt jobs) xs)
sort-Descending jobs xs =
    Chain-Descending jobs (λ _ _. Unit) (sort (priority_gt jobs) xs)
      (sort-Chain (priority_gt jobs) (priority_gt-IsOrder jobs) (λ _ _. Unit) xs (Chain-trivial xs))

lt_text_asym : (s t : Text) → lt_text s t ≡ true → lt_text t s ≡ false
unfolding lt_text
lt_text_asym [] [] h = cc
lt_text_asym [] (d ∷ t) h = refl
lt_text_asym (c ∷ s) [] h = cc
lt_text_asym (c ∷ s) (d ∷ t) h = ground (arith, lt_text_asym s t)

lt_text_trans : (s t u : Text) → lt_text t s ≡ false → lt_text u t ≡ false → lt_text u s ≡ false
unfolding lt_text
lt_text_trans [] t [] h k = refl
lt_text_trans [] t (e ∷ u) h k = refl
lt_text_trans (c ∷ s) [] u h k = cc
lt_text_trans (c ∷ s) (d ∷ t) [] h k = cc
lt_text_trans (c ∷ s) (d ∷ t) (e ∷ u) h k = ground (arith, lt_text_trans s t u)

flip_if-IsOrder : (b : Bool) (lt : ℕ → ℕ → Bool) → IsOrder lt → IsOrder (flip_if b lt)
flip_if-IsOrder true lt o = record {
  asym = λ a b. o.asym b a;
  trans = λ a b c h k. o.trans c b a k h;
}
flip_if-IsOrder false lt o = record { asym = o.asym; trans = o.trans }

key_lt-IsOrder :
    (field : SortField) (jobs : ℕ → Nzo)
    → field ≢ remaining_part
    → IsOrder (λ a b. key_lt field (jobs a) (jobs b))
unfolding key_lt
key_lt-IsOrder name jobs h = record {
  asym = λ a b. lt_text_asym (lower (jobs a).final_name) (lower (jobs b).final_name);
  trans = λ a b c.
      lt_text_trans (lower (jobs a).final_name) (lower (jobs b).final_name)
        (lower (jobs c).final_name);
}
key_lt-IsOrder size jobs h = record {
  asym = λ a b h. ground arith;
  trans = λ a b c h k. ground arith;
}
key_lt-IsOrder avg_age jobs h = record {
  asym = λ a b h. ground arith;
  trans = λ a b c h k. ground arith;
}
key_lt-IsOrder remaining_part jobs h = absurd (h refl)

pub field_lt-IsOrder :
    (field : SortField) (desc : Bool) (jobs : ℕ → Nzo)
    → field ≢ remaining_part
    → IsOrder (field_lt field desc jobs)
unfolding field_lt
field_lt-IsOrder field desc jobs h =
    flip_if-IsOrder _ (λ a b. key_lt field (jobs a) (jobs b)) (key_lt-IsOrder field jobs h)

-- After a sort by name, size or age, in either direction, no job has a higher priority than one that
-- stands before it, and of two jobs of one priority the second does not go before the first by the
-- field.
pub sort_queue-Chain :
    (q : Queue) (field : SortField) (desc : Bool)
    → field ≢ remaining_part
    → Chain (InQueueOrder q.jobs field desc) (sort_queue (some field) desc q).nzo_list
sort_queue-Chain q field desc h =
    Chain-sort_queue q field desc (field_lt-IsOrder field desc q.jobs h)
