-- ===== src/Queue/Switch/Order.antt =====
-- sabnzbd/nzbqueue.py: `switch`: a job that is put in elsewhere, and the order of the list.
use sabnzbd.Prelude.{
  ℕ, ◌≡◌, ap, sym, subst, ◌∙◌, false, ◌||◌, ◌==◌, List, [], ◌∷◌, ◌++◌, contains, Distinct, All,
  All-append, arith, append_assoc, ℤ, ◌≤ℤ◌, contains-insert, insert-Distinct,
}
use sabnzbd.Prelude.Sorted.{Descending, insert-Descending, Descending-change}
use sabnzbd.Job.{Nzo}
use sabnzbd.Queue.State.{Queue, IsValid, update, rank, rank_of}
use sabnzbd.Queue.Insert.{update_self}

-- Taking an element out of the middle, and what stands before and behind an element.
module _ (f : ℕ → ℤ) where
  All-drop :
      (a : ℕ) (b : ℤ) (xs ys : List ℕ)
      → All (λ y. f y ≤ℤ b) (xs ++ a ∷ ys)
      → All (λ y. f y ≤ℤ b) (xs ++ ys)
  All-drop a b [] ys h = h.1
  All-drop a b (x ∷ xs) ys h = (h.0, All-drop a b xs ys h.1)

  All-at : (a : ℕ) (b : ℤ) (xs ys : List ℕ) → All (λ y. f y ≤ℤ b) (xs ++ a ∷ ys) → f a ≤ℤ b
  All-at a b [] ys h = h.0
  All-at a b (x ∷ xs) ys h = All-at a b xs ys h.1

  drop-Descending : (a : ℕ) (xs ys : List ℕ) → Descending f (xs ++ a ∷ ys) → Descending f (xs ++ ys)
  drop-Descending a [] ys d = d.1
  drop-Descending a (x ∷ xs) ys d = (All-drop a (f x) xs ys d.0, drop-Descending a xs ys d.1)

  pub before-ge : (a : ℕ) (xs ys : List ℕ) → Descending f (xs ++ a ∷ ys) → All (λ x. f a ≤ℤ f x) xs
  before-ge a [] ys d = tt
  before-ge a (x ∷ xs) ys d = (All-at a (f x) xs ys d.0, before-ge a xs ys d.1)

  pub after-le : (a : ℕ) (xs ys : List ℕ) → Descending f (xs ++ a ∷ ys) → All (λ y. f y ≤ℤ f a) ys
  after-le a [] ys d = d.0
  after-le a (x ∷ xs) ys d = after-le a xs ys d.1

  -- An element of the same key fits directly before and directly behind another.
  pub beside_up :
      (a b : ℕ) (xs ys : List ℕ)
      → f a ≡ f b
      → Descending f (xs ++ b ∷ ys)
      → Descending f (xs ++ a ∷ (b ∷ ys))
  beside_up a b xs ys e d =
      insert-Descending f a xs (b ∷ ys) d
        (subst (λ (r : ℤ). All (λ x. r ≤ℤ f x) xs) (sym e) (before-ge b xs ys d))
        (subst (λ (r : ℤ). All (λ y. f y ≤ℤ r) (b ∷ ys)) (sym e) (omega arith, after-le b xs ys d))

  pub beside_down :
      (a b : ℕ) (xs ys : List ℕ)
      → f a ≡ f b
      → Descending f (xs ++ b ∷ ys)
      → Descending f ((xs ++ b ∷ []) ++ a ∷ ys)
  beside_down a b xs ys e d =
      insert-Descending f a (xs ++ b ∷ []) ys (rw append_assoc d)
        (subst (λ (r : ℤ). All (λ x. r ≤ℤ f x) (xs ++ b ∷ [])) (sym e)
          (All-append (λ x. f b ≤ℤ f x) xs (b ∷ []) (before-ge b xs ys d) (omega arith, tt)))
        (subst (λ (r : ℤ). All (λ y. f y ≤ℤ r) ys) (sym e) (after-le b xs ys d))

drop-Distinct :
    (a : ℕ) (xs ys : List ℕ)
    → Distinct (xs ++ a ∷ ys)
    → Distinct (xs ++ ys) × (contains a (xs ++ ys) ≡ false)
drop-Distinct a [] ys d = (d.1, d.0)
drop-Distinct a (x ∷ xs) ys d = ground (arith, contains-insert x a xs ys, drop-Distinct a xs ys d.1)

module _ (q : Queue) (a : ℕ) (nzo : Nzo) where
  abbrev pub ranks : ℕ → ℤ
  ranks = rank_of (update a nzo q.jobs)

  pub other_rank : (x : ℕ) → (x == a) ≡ false → rank_of q.jobs x ≡ ranks x
  other_rank x e = ground arith

  pub own_rank : ranks a ≡ rank nzo.priority
  own_rank = ap (λ (n : Nzo). rank n.priority) (update_self q.jobs a nzo)

  -- The job is taken out of the list and put in elsewhere, where its new rank fits.
  pub reinsert-IsValid :
      (xs ys xs' ys' : List ℕ)
      → q.nzo_list ≡ xs ++ a ∷ ys
      → xs ++ ys ≡ xs' ++ ys'
      → Descending ranks (xs' ++ a ∷ ys')
      → IsValid q
      → IsValid (record q { jobs = update a nzo q.jobs; nzo_list = xs' ++ a ∷ ys' })
  reinsert-IsValid xs ys xs' ys' split same d v =
      let (distinct, out) = drop-Distinct a xs ys (subst Distinct split v.list_distinct) in
      record {
        list_distinct =
            insert-Distinct a xs' ys' (subst Distinct same distinct)
              (subst (λ l. contains a l ≡ false) same out);
        table_distinct = v.table_distinct;
        same_jobs = λ c.
            contains-insert c a xs' ys'
            ∙ ap (λ l. (a == c) || contains c l) (sym same)
            ∙ sym (contains-insert c a xs ys)
            ∙ ap (contains c) (sym split)
            ∙ v.same_jobs c;
        ordered = d;
      }

  -- The other jobs are in the order of the new ranks.
  pub rest-Descending :
      (xs ys : List ℕ) → q.nzo_list ≡ xs ++ a ∷ ys → IsValid q → Descending ranks (xs ++ ys)
  rest-Descending xs ys split v =
      Descending-change (rank_of q.jobs) ranks a other_rank (xs ++ ys)
        (drop-Distinct a xs ys (subst Distinct split v.list_distinct)).1
        (drop-Descending (rank_of q.jobs) a xs ys
          (subst (Descending (rank_of q.jobs)) split v.ordered))
