-- ===== src/Queue/Place/Position.antt =====
-- sabnzbd/nzbqueue.py: where `place` puts a job among the others.
use native.Mathlib.Nat.{zero-add}
use sabnzbd.Prelude.{
  sym, append-nil, subst, ◌∙◌, ap, ℕ, ◌+◌, ◌≡◌, refl, true, false, Bool-cases, inl, inr, none, some,
  List, [], ◌∷◌, ◌++◌, length, insert_at, All, ℤ, ltb_ℤ, eqb_ℤ, ◌≤ℤ◌, arith, get_elem?,
}
use sabnzbd.Prelude.Sorted.{Descending}
use sabnzbd.Job.{normal_priority, high_priority, low_priority}
use sabnzbd.Queue.State.{rank}
use sabnzbd.Queue.Place.{first_lower, place_below, place}
use sabnzbd.Queue.Place.Rank.{
  not_lower, rank-le_of_lower, All-rank, All-below, Descending-suffix, rank-lt_of_lower, All-strict,
  at_most_top, at_least_bottom,
}

-- The id stands between the jobs that are not below `p` and those that are not above it.
pub record Placed (f : ℕ → ℤ) (p : ℤ) (id : ℕ) (xs result : List ℕ) : Type 0 where
  pub before : List ℕ
  pub after : List ℕ
  pub split : xs ≡ before ++ after
  pub joined : result ≡ before ++ id ∷ after
  pub above : All (λ x. rank p ≤ℤ rank (f x)) before
  pub below : All (λ x. rank (f x) ≤ℤ rank p) after
  -- A job of normal or high priority stands behind all of its equals.
  pub fair :
      normal_priority ≤ℤ p
      → p ≤ℤ high_priority
      → All (λ x. ltb_ℤ (rank (f x)) (rank p) ≡ true) after

insert_at-length :
    (id : ℕ) (before after : List ℕ)
    → insert_at (length before) id (before ++ after) ≡ before ++ id ∷ after
insert_at-length id [] after = refl
insert_at-length id (x ∷ before) after = ap (λ l. x ∷ l) (insert_at-length id before after)

pub get_elem?-length :
    (id : ℕ) (before after : List ℕ) → get_elem? (before ++ id ∷ after) (length before) ≡ some id
get_elem?-length id [] after = refl
get_elem?-length id (x ∷ before) after = get_elem?-length id before after

-- What the loop has found: nothing below `p`, or the first job below `p` and its position.
data Found (f : ℕ → ℤ) (p : ℤ) (n : ℕ) (xs : List ℕ) : Type 0 where
  nothing : first_lower f p n xs ≡ none → All (λ x. p ≤ℤ f x) xs → Found f p n xs
  first :
      (before : List ℕ) (x : ℕ) (after : List ℕ)
      → first_lower f p n xs ≡ some (n + length before)
      → xs ≡ before ++ x ∷ after
      → All (λ y. p ≤ℤ f y) before
      → ltb_ℤ (f x) p ≡ true
      → Found f p n xs

find_first : (f : ℕ → ℤ) (p : ℤ) (n : ℕ) (xs : List ℕ) → Found f p n xs
unfolding first_lower
find_first f p n [] = nothing refl tt
find_first f p n (x ∷ xs) = elim (Bool-cases (ltb_ℤ (f x) p)) [
  | inl low ↦ first [] x xs (ground arith) refl tt low
  | inr high ↦ later high (find_first f p (n + 1) xs)
]
  where
    later : ltb_ℤ (f x) p ≡ false → Found f p (n + 1) xs → Found f p n (x ∷ xs)
    later high (nothing e above) = nothing (rw high e) (not_lower (f x) p high, above)
    later high (first before y after e split above low) =
        first (x ∷ before) y after (rw high (rw e (ground arith))) (ap (λ l. x ∷ l) split)
          (not_lower (f x) p high, above) low

abbrev pub PlacedAt : (ℕ → ℤ) → ℤ → ℕ → List ℕ → ℕ × List ℕ → Type 0
PlacedAt f p id xs r = Placed f p id xs r.1 × (get_elem? r.1 r.0 ≡ some id)

pub place_at_end :
    (f : ℕ → ℤ) (p : ℤ) (id : ℕ) (xs : List ℕ)
    → All (λ x. rank p ≤ℤ rank (f x)) xs
    → Placed f p id xs (xs ++ id ∷ [])
place_at_end f p id xs above = record {
  before = xs;
  after = [];
  split = sym (append-nil xs);
  joined = refl;
  above = above;
  below = tt;
  fair = λ _ _. tt;
}

pub place_at_top :
    (f : ℕ → ℤ) (p : ℤ) (id : ℕ) (xs : List ℕ)
    → ltb_ℤ high_priority p ≡ true
    → Placed f p id xs (id ∷ xs)
place_at_top f p id xs top = record {
  before = [];
  after = xs;
  split = refl;
  joined = refl;
  above = tt;
  below = at_most_top f p xs top;
  fair = λ _ high. absurd (not_top high);
}
  where
    not_top : p ≤ℤ high_priority → ⊥
    not_top high = ground arith

place_before :
    (f : ℕ → ℤ) (p : ℤ) (id : ℕ) (before : List ℕ) (x : ℕ) (after : List ℕ)
    → Descending (λ y. rank (f y)) (before ++ x ∷ after)
    → All (λ y. p ≤ℤ f y) before
    → ltb_ℤ (f x) p ≡ true
    → Placed f p id (before ++ x ∷ after) (insert_at (length before) id (before ++ x ∷ after))
place_before f p id before x after d above low =
    let low_rank = rank-le_of_lower (f x) p low in
    record {
      before = before;
      after = x ∷ after;
      split = refl;
      joined = insert_at-length id before (x ∷ after);
      above = All-rank f p before above;
      below = (
        low_rank,
        All-below f (rank (f x)) (rank p) after low_rank
            (Descending-suffix (λ y. rank (f y)) before (x ∷ after) d).0,
      );
      fair = λ from_normal to_high.
          let strict = rank-lt_of_lower (f x) p low from_normal to_high in
          (
            strict,
            All-strict f p (f x) after strict
                (Descending-suffix (λ y. rank (f y)) before (x ∷ after) d).0,
          );
    }

place-Found :
    (f : ℕ → ℤ) (p : ℤ) (id : ℕ) (xs : List ℕ)
    → Descending (λ x. rank (f x)) xs
    → Found f p 0 xs
    → PlacedAt f p id xs (place_below f p id xs)
unfolding place_below
place-Found f p id xs d (nothing e above) =
    rw (e, place_below) (place_at_end f p id xs (All-rank f p xs above), get_elem?-length id xs [])
place-Found f p id xs d (first before x after e split above low) =
    subst
      (λ l.
        Descending (λ y. rank (f y)) l
        → first_lower f p 0 l ≡ some (length before)
        → PlacedAt f p id l (place_below f p id l))
      (sym split)
      (λ d' e'.
        rw (e', place_below)
          (
            place_before f p id before x after d' above low,
            rw (insert_at-length id before (x ∷ after)) (get_elem?-length id before (x ∷ after)),
          ))
      d (e ∙ ap some (zero-add (length before)))

-- The result of `place_below`, with the position that it reports.
pub place_below-Placed :
    (f : ℕ → ℤ) (p : ℤ) (id : ℕ) (xs : List ℕ)
    → Descending (λ x. rank (f x)) xs
    → PlacedAt f p id xs (place_below f p id xs)
place_below-Placed f p id xs d = place-Found f p id xs d (find_first f p 0 xs)

pub place-Placed :
    (f : ℕ → ℤ) (p : ℤ) (id : ℕ) (xs : List ℕ)
    → Descending (λ x. rank (f x)) xs
    → Placed f p id xs (place f p id xs)
unfolding place
place-Placed f p id xs d = elim (Bool-cases (ltb_ℤ high_priority p)) [
  | inl top ↦ rw top (place_at_top f p id xs top)
  | inr not_top ↦ elim (Bool-cases (eqb_ℤ p low_priority)) [
    | inl bottom ↦ rw not_top (rw bottom (place_at_end f p id xs (at_least_bottom f p xs bottom)))
    | inr not_bottom ↦ rw not_top (rw not_bottom (place_below-Placed f p id xs d).0)
  ]
]
