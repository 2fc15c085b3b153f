-- ===== src/Queue/SetPriority/Order.antt =====
-- sabnzbd/nzbqueue.py: the queue after a change of priority, and what `set_priority` returns.
use sabnzbd.Prelude.{
  ℕ, suc, ◌≡◌, refl, ap, sym, subst, ◌∙◌, Bool, true, false, ◌||◌, ◌==◌, if_ind, Option, some, List,
  [], ◌∷◌, delete_at, remove_one, contains, get_elem?, ℤ, pos, eqb_ℤ, ltb_ℤ, arith, Bool-cases, inl,
  inr, ==_iff, contains-remove_one_self, contains-remove_one_ne, remove_one-Distinct,
}
use sabnzbd.Prelude.Sorted.{Descending, remove_one-Descending}
use sabnzbd.Job
use sabnzbd.Job.{Nzo, stop_priority, force_priority, low_priority, high_priority, valid_priority}
use sabnzbd.Queue.State.{
  Queue, IsValid, save_job, set_job, emit, update, priority_of, rank, rank_of,
}
use sabnzbd.Queue.Place.Position.{
  PlacedAt, place_below-Placed, place_at_end, place_at_top, get_elem?-length,
}
use sabnzbd.Queue.Place.Rank.{at_least_bottom}
use sabnzbd.Queue.Insert.{
  Placed-contains, Placed-Distinct, Placed-Descending, update-Descending, update_self,
}
use sabnzbd.Queue.Add.{Surroundings, index_of?}
use sabnzbd.Queue.SetPriority.{
  changed, replaced, move_to, set_listed, set_priority_one, at_position,
}

-- The position of a listed reference.
record Located (a : ℕ) (xs : List ℕ) : Type 0 where
  n : ℕ
  found : index_of? a xs ≡ some n
  at : get_elem? xs n ≡ some a
  deletes : delete_at n xs ≡ remove_one a xs

locate : (a : ℕ) (xs : List ℕ) → contains a xs ≡ true → Located a xs
locate a [] h = absurd (impossible h)
  where
    impossible : false ≡ true → ⊥
    impossible e = cc
locate a (x ∷ xs) h = elim (Bool-cases (x == a)) [
  | inl e ↦ record {
    n = 0;
    found = rw e refl;
    at = ap some ((==_iff x a).0 e);
    deletes = rw e refl;
  }
  | inr e ↦
      let l = locate a xs (rest e h) in
      record {
        n = suc l.n;
        found = rw e (rw l.found refl);
        at = l.at;
        deletes = rw e (ap (λ r. x ∷ r) l.deletes);
      }
]
  where
    rest : (x == a) ≡ false → ((x == a) || contains a xs) ≡ true → contains a xs ≡ true
    rest e k = ground arith

replaced-PlacedAt :
    (f : ℕ → ℤ) (p : ℤ) (id : ℕ) (xs : List ℕ)
    → Descending (λ x. rank (f x)) xs
    → PlacedAt f p id xs (replaced f p id xs)
unfolding replaced
replaced-PlacedAt f p id xs d =
    if_ind (PlacedAt f p id xs) (eqb_ℤ p force_priority)
      (λ top. (place_at_top f p id xs (force_is_top top), refl))
      (λ _.
        if_ind (PlacedAt f p id xs) (eqb_ℤ p low_priority)
          (λ low. (place_at_end f p id xs (at_least_bottom f p xs low), get_elem?-length id xs []))
          (λ _. place_below-Placed f p id xs d))
  where
    force_is_top : eqb_ℤ p force_priority ≡ true → ltb_ℤ high_priority p ≡ true
    force_is_top e = ground arith

priority-changed :
    (w : Surroundings) (p : ℤ) (nzo : Nzo)
    → valid_priority p ≡ true
    → (changed w p nzo).priority ≡ p
unfolding changed Job.set_priority valid_priority
priority-changed w p nzo h = rw h refl

-- What a change of priority leaves: a valid queue, and the position that it reports.
pub record IsMoved (id : ℕ) (r : Option ℤ × Queue) : Type 0 where
  pub valid : IsValid r.1
  pub position : ℕ
  pub reported : r.0 ≡ some (pos position)
  pub there : get_elem? r.1.nzo_list position ≡ some id

move_to-IsMoved :
    (p : ℤ) (id : ℕ) (nzo : Nzo) (q : Queue) (l : Located id q.nzo_list)
    → IsValid q
    → contains id q.nzo_list ≡ true
    → nzo.priority ≡ p
    → IsMoved id (move_to p id (some l.n) (emit (save_job id) (set_job id nzo q)))
unfolding move_to
move_to-IsMoved p id nzo q l v there own =
    let jobs = update id nzo q.jobs in
    let rest = remove_one id q.nzo_list in
    let out = contains-remove_one_self id q.nzo_list v.list_distinct in
    let d =
      update-Descending q.jobs id nzo rest out
        (remove_one-Descending (rank_of q.jobs) id q.nzo_list v.ordered) in
    let r = replaced (priority_of jobs) p id rest in
    let (placed, at) = replaced-PlacedAt (priority_of jobs) p id rest d in
    rw l.deletes (record {
      valid = record {
        list_distinct =
            Placed-Distinct (priority_of jobs) p id rest r.1 placed
              (remove_one-Distinct id q.nzo_list v.list_distinct) out;
        table_distinct = v.table_distinct;
        same_jobs =
            λ a. Placed-contains (priority_of jobs) p id rest r.1 placed a ∙ back a ∙ v.same_jobs a;
        ordered =
            Placed-Descending (priority_of jobs) p id rest r.1 placed
              (ap (λ (n : Nzo). n.priority) (update_self q.jobs id nzo) ∙ own) d;
      };
      position = r.0;
      reported = refl;
      there = at;
    })
  where
    back : (a : ℕ) → ((id == a) || contains a (remove_one id q.nzo_list)) ≡ contains a q.nzo_list
    back a = elim (Bool-cases (id == a)) [
      | inl e ↦ rw e (sym (subst (λ b. contains b q.nzo_list ≡ true) ((==_iff id a).0 e) there))
      | inr e ↦ rw e (contains-remove_one_ne a id q.nzo_list e)
    ]

set_listed-IsMoved :
    (w : Surroundings) (id : ℕ) (p : ℤ) (q : Queue) (l : Located id q.nzo_list)
    → IsValid q
    → contains id q.nzo_list ≡ true
    → valid_priority p ≡ true
    → IsMoved id (set_listed w id p (some l.n) (some id) q)
unfolding set_listed
set_listed-IsMoved w id p q l v there ok =
    if_ind (IsMoved id) (eqb_ℤ p (q.jobs id).priority)
      (λ _. record { valid = v; position = l.n; reported = refl; there = l.at })
      (λ _.
        move_to-IsMoved p id (changed w p (q.jobs id)) q l v there
          (priority-changed w p (q.jobs id) ok))

-- A valid priority other than Stop, set for a job of a valid queue: the queue stays valid, and the
-- result is the position at which the job now stands.
pub set_priority_one-IsMoved :
    (w : Surroundings) (id : ℕ) (p : ℤ) (q : Queue)
    → IsValid q
    → contains id q.nzo_table ≡ true
    → valid_priority p ≡ true
    → eqb_ℤ p stop_priority ≡ false
    → IsMoved id (set_priority_one w id p q)
unfolding set_priority_one
set_priority_one-IsMoved w id p q v there ok go_on =
    let listed = v.same_jobs id ∙ there in
    let l = locate id q.nzo_list listed in
    if_ind (IsMoved id) (contains id q.nzo_table)
      (λ _.
        if_ind (IsMoved id) (eqb_ℤ p stop_priority) (λ stop. absurd (both stop go_on))
          (λ _.
            subst (λ o. IsMoved id (set_listed w id p o (at_position o q.nzo_list) q)) (sym l.found)
              (subst (λ o. IsMoved id (set_listed w id p (some l.n) o q)) (sym l.at)
                (set_listed-IsMoved w id p q l v listed ok))))
      (λ absent. absurd (both there absent))
  where
    both : {b : Bool} → b ≡ true → b ≡ false → ⊥
    both p n = cc
