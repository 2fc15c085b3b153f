-- ===== src/Queue/Switch/Split.antt =====
-- sabnzbd/nzbqueue.py: where the two jobs of `switch` stand, and the list after the move.
use sabnzbd.Prelude.{
  ℕ, suc, ◌+◌, ◌≡◌, refl, ap, subst, ◌∙◌, true, false, ◌||◌, ◌==◌, List, [], ◌∷◌, ◌++◌, length,
  insert_at, delete_at, contains, Distinct, arith, Bool-cases, inl, inr, ==_iff, append_assoc,
  length-append,
}

-- `xs` is `before ++ a ∷ after`, and `a` is not in `before`.
pub record FirstAt (a : ℕ) (xs : List ℕ) : Type 0 where
  pub before : List ℕ
  pub after : List ℕ
  pub split : xs ≡ before ++ a ∷ after
  pub absent : contains a before ≡ false

pub first_at : (a : ℕ) (xs : List ℕ) → contains a xs ≡ true → FirstAt a xs
first_at a [] h = absurd (impossible h)
  where
    impossible : false ≡ true → ⊥
    impossible e = cc
first_at a (x ∷ xs) h = elim (Bool-cases (x == a)) [
  | inl e ↦ record {
    before = [];
    after = xs;
    split = ap (λ y. y ∷ xs) ((==_iff x a).0 e);
    absent = refl;
  }
  | inr e ↦
      let f = first_at a xs (rest e h) in
      record {
        before = x ∷ f.before;
        after = f.after;
        split = ap (λ r. x ∷ r) f.split;
        absent = rw e f.absent;
      }
]
  where
    rest : (x == a) ≡ false → ((x == a) || contains a xs) ≡ true → contains a xs ≡ true
    rest e k = ground arith

-- The job `a` stands below the target `b`, or above it.
pub data Sides (a b : ℕ) (xs : List ℕ) : Type 0 where
  up :
      (before between after : List ℕ)
      → xs ≡ before ++ b ∷ (between ++ a ∷ after)
      → contains a before ≡ false
      → contains b before ≡ false
      → contains a between ≡ false
      → contains b (between ++ a ∷ after) ≡ false
      → Sides a b xs
  down :
      (before between after : List ℕ)
      → xs ≡ before ++ a ∷ (between ++ b ∷ after)
      → contains a before ≡ false
      → contains b before ≡ false
      → contains a (between ++ b ∷ after) ≡ false
      → contains b between ≡ false
      → Sides a b xs

Sides-cons :
    (a b x : ℕ) {xs : List ℕ}
    → (x == a) ≡ false
    → (x == b) ≡ false
    → Sides a b xs
    → Sides a b (x ∷ xs)
Sides-cons a b x ea eb (up before between after split ha hb hab hbr) =
    up (x ∷ before) between after (ap (λ r. x ∷ r) split) (rw ea ha) (rw eb hb) hab hbr
Sides-cons a b x ea eb (down before between after split ha hb hab hbb) =
    down (x ∷ before) between after (ap (λ r. x ∷ r) split) (rw ea ha) (rw eb hb) hab hbb

pub sides :
    (a b : ℕ) (xs : List ℕ)
    → (a == b) ≡ false
    → Distinct xs
    → contains a xs ≡ true
    → contains b xs ≡ true
    → Sides a b xs
sides a b [] ne d ha hb = absurd (impossible ha)
  where
    impossible : false ≡ true → ⊥
    impossible e = cc
sides a b (x ∷ xs) ne d ha hb = elim (Bool-cases (x == a)) [
  | inl ea ↦
      let f = first_at b xs (later_b ea) in
      down [] f.before f.after (ap (λ y. y ∷ xs) ((==_iff x a).0 ea) ∙ ap (λ r. a ∷ r) f.split) refl
        refl
        (subst (λ r. contains a r ≡ false) f.split
          (subst (λ y. contains y xs ≡ false) ((==_iff x a).0 ea) d.0))
        f.absent
  | inr ea ↦ elim (Bool-cases (x == b)) [
    | inl eb ↦
        let f = first_at a xs (later a ea ha) in
        up [] f.before f.after (ap (λ y. y ∷ xs) ((==_iff x b).0 eb) ∙ ap (λ r. b ∷ r) f.split) refl
          refl f.absent
          (subst (λ r. contains b r ≡ false) f.split
            (subst (λ y. contains y xs ≡ false) ((==_iff x b).0 eb) d.0))
    | inr eb ↦ Sides-cons a b x ea eb (sides a b xs ne d.1 (later a ea ha) (later b eb hb))
  ]
]
  where
    later : (c : ℕ) → (x == c) ≡ false → ((x == c) || contains c xs) ≡ true → contains c xs ≡ true
    later c e k = ground arith

    later_b : (x == a) ≡ true → contains b xs ≡ true
    later_b e = ground arith

pub delete_at-length :
    (x : ℕ) (before after : List ℕ)
    → delete_at (length before) (before ++ x ∷ after) ≡ before ++ after
delete_at-length x [] after = refl
delete_at-length x (y ∷ before) after = ap (λ r. y ∷ r) (delete_at-length x before after)

pub insert_at-length :
    (x : ℕ) (before after : List ℕ)
    → insert_at (length before) x (before ++ after) ≡ before ++ x ∷ after
insert_at-length x [] after = refl
insert_at-length x (y ∷ before) after = ap (λ r. y ∷ r) (insert_at-length x before after)

-- The list after the move: the job stands directly above a target above it, and directly below a
-- target below it.
pub move-up :
    (a b : ℕ) (before between after : List ℕ)
    → insert_at
        (length before)
        a
        (delete_at (length before + suc (length between)) (before ++ b ∷ (between ++ a ∷ after)))
      ≡ before ++ a ∷ (b ∷ (between ++ after))
move-up a b before between after =
    ap (insert_at (length before) a) deleted ∙ insert_at-length a before (b ∷ (between ++ after))
  where
    deleted :
        delete_at (length before + suc (length between)) (before ++ b ∷ (between ++ a ∷ after))
        ≡ before ++ b ∷ (between ++ after)
    deleted = rw (← append_assoc before (b ∷ between) (a ∷ after)) (
        rw (← length-append before (b ∷ between)) (
          delete_at-length a (before ++ b ∷ between) after
          ∙ append_assoc before (b ∷ between) after))

pub move-down :
    (a b : ℕ) (before between after : List ℕ)
    → insert_at
        (length before + suc (length between))
        a
        (delete_at (length before) (before ++ a ∷ (between ++ b ∷ after)))
      ≡ (before ++ (between ++ b ∷ [])) ++ a ∷ after
move-down a b before between after =
    ap (insert_at (length before + suc (length between)) a)
      (delete_at-length a before (between ++ b ∷ after) ∙ regroup)
    ∙ ap (λ n. insert_at n a ((before ++ (between ++ b ∷ [])) ++ after)) position
    ∙ insert_at-length a (before ++ (between ++ b ∷ [])) after
  where
    regroup : before ++ (between ++ b ∷ after) ≡ (before ++ (between ++ b ∷ [])) ++ after
    regroup = simp append_assoc

    position : length before + suc (length between) ≡ length (before ++ (between ++ b ∷ []))
    position =
        omega (arith, length-append before (between ++ b ∷ []), length-append between (b ∷ []))
