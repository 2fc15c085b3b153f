-- ===== src/Queue/Switch/Find.antt =====
-- sabnzbd/nzbqueue.py: where the loop of `switch` finds the two jobs.
use sabnzbd.Prelude.{
  ℕ, suc, ◌+◌, ◌≡◌, refl, ap, ◌∙◌, false, ◌==◌, Option, none, some, List, [], ◌∷◌, ◌++◌, length,
  contains, arith, or_false, ==_refl,
}
use sabnzbd.Queue.Switch.{find_both, both_found}

-- One round of the loop, at a job that is neither, the first and the second of the two.
find_both-other :
    (a b n : ℕ) (p1 p2 : Option ℕ) (x : ℕ) (xs : List ℕ)
    → both_found p1 p2 ≡ none
    → (x == a) ≡ false
    → (x == b) ≡ false
    → find_both a b n p1 p2 (x ∷ xs) ≡ find_both a b (suc n) p1 p2 xs
unfolding find_both
find_both-other a b n p1 p2 x xs open_ ea eb = ground arith

-- The loop passes over jobs that are neither of the two.
find_both-skip :
    (a b n : ℕ) (p1 p2 : Option ℕ) (ys xs : List ℕ)
    → both_found p1 p2 ≡ none
    → contains a ys ≡ false
    → contains b ys ≡ false
    → find_both a b n p1 p2 (ys ++ xs) ≡ find_both a b (length ys + n) p1 p2 xs
find_both-skip a b n p1 p2 [] xs open_ ha hb = ap (λ m. find_both a b m p1 p2 xs) (omega arith)
find_both-skip a b n p1 p2 (y ∷ ys) xs open_ ha hb =
    let (ya, ra) = or_false (y == a) (contains a ys) ha in
    let (yb, rb) = or_false (y == b) (contains b ys) hb in
    find_both-other a b n p1 p2 y (ys ++ xs) open_ ya yb
    ∙ find_both-skip a b (suc n) p1 p2 ys xs open_ ra rb
    ∙ ap (λ m. find_both a b m p1 p2 xs) (omega arith)

-- The positions that the loop finds, for both arrangements.
pub find_both-up :
    (a b : ℕ) (before between after : List ℕ)
    → (b == a) ≡ false
    → contains a before ≡ false
    → contains b before ≡ false
    → contains a between ≡ false
    → contains b between ≡ false
    → find_both a b 0 none none (before ++ b ∷ (between ++ a ∷ after))
      ≡ some (length before + suc (length between), length before)
unfolding find_both
find_both-up a b before between after ne ha hb ka kb =
    find_both-skip a b 0 none none before (b ∷ (between ++ a ∷ after)) refl ha hb
    ∙ found_b
    ∙ find_both-skip a b (suc (length before + 0)) none (some (length before + 0)) between
        (a ∷ after) refl ka kb
    ∙ found_a
  where
    found_b :
        find_both a b (length before + 0) none none (b ∷ (between ++ a ∷ after))
        ≡ find_both a b
            (suc (length before + 0))
            none
            (some (length before + 0))
            (between ++ a ∷ after)
    found_b = ground (arith, ==_refl b)

    found_a :
        find_both a b
          (length between + suc (length before + 0))
          none
          (some (length before + 0))
          (a ∷ after)
        ≡ some (length before + suc (length between), length before)
    found_a = ground (arith, ==_refl a)

pub find_both-down :
    (a b : ℕ) (before between after : List ℕ)
    → (b == a) ≡ false
    → contains a before ≡ false
    → contains b before ≡ false
    → contains a between ≡ false
    → contains b between ≡ false
    → find_both a b 0 none none (before ++ a ∷ (between ++ b ∷ after))
      ≡ some (length before, length before + suc (length between))
unfolding find_both
find_both-down a b before between after ne ha hb ka kb =
    find_both-skip a b 0 none none before (a ∷ (between ++ b ∷ after)) refl ha hb
    ∙ found_a
    ∙ find_both-skip a b (suc (length before + 0)) (some (length before + 0)) none between
        (b ∷ after) refl ka kb
    ∙ found_b
  where
    found_a :
        find_both a b (length before + 0) none none (a ∷ (between ++ b ∷ after))
        ≡ find_both a b
            (suc (length before + 0))
            (some (length before + 0))
            none
            (between ++ b ∷ after)
    found_a = ground (arith, ==_refl a)

    found_b :
        find_both a b
          (length between + suc (length before + 0))
          (some (length before + 0))
          none
          (b ∷ after)
        ≡ some (length before, length before + suc (length between))
    found_b = ground (arith, ==_refl b)
