-- ===== src/Queue/Switch/Result.antt =====
-- sabnzbd/nzbqueue.py: the queue after `switch`, and what it returns.
use sabnzbd.Prelude.{
  ℕ, suc, ◌+◌, ◌≡◌, refl, ap, sym, subst, ◌∙◌, true, false, not, ◌&&◌, ◌==◌, if_ind, Option, none,
  some, List, [], ◌∷◌, ◌++◌, length, get_elem?, insert_at, delete_at, contains, arith, or_false,
  append_assoc, length-append, ℤ, pos, negsuc, ◌≤ℤ◌, contains-append,
}
use sabnzbd.Prelude.Sorted.{Descending}
use sabnzbd.Job.{Nzo}
use sabnzbd.Queue.State.{Queue, IsValid, set_job, update, priority_of, rank, rank_of}
use sabnzbd.Queue.Switch.{
  Target, target_id, below_target, priority_below, adjusted, find_both, moved, switch_jobs,
  switch_found, switch,
}
use sabnzbd.Queue.Switch.Split.{Sides, up, down, sides, move-up, move-down}
use sabnzbd.Queue.Place.Position.{get_elem?-length}
use sabnzbd.Queue.Switch.Order.{
  beside_up, beside_down, ranks, other_rank, own_rank, reinsert-IsValid, rest-Descending,
}
use sabnzbd.Queue.Switch.Find.{find_both-up, find_both-down}
use sabnzbd.Queue.Switch.Rank.{rank-adjusted, IsPlain, below_rank}

-- The result of `switch`: a valid queue, and the position of the job if it has moved.
pub record IsSwitched (id : ℕ) (r : (ℤ × ℤ) × Queue) : Type 0 where
  pub valid : IsValid r.1
  pub there : (n : ℕ) → r.0.0 ≡ pos n → get_elem? r.1.nzo_list n ≡ some id

module _ (q : Queue) (a : ℕ) (nzo : Nzo) where
  moved-IsSwitched :
      (p : ℤ) (n1 n2 : ℕ) (xs ys : List ℕ)
      → insert_at n2 a (delete_at n1 q.nzo_list) ≡ xs ++ a ∷ ys
      → n2 ≡ length xs
      → IsValid (record q { jobs = update a nzo q.jobs; nzo_list = xs ++ a ∷ ys })
      → IsSwitched a (moved a p (some (n1, n2)) (set_job a nzo q))
  unfolding moved
  moved-IsSwitched p n1 n2 xs ys list at v = record {
    valid =
        subst (λ l. IsValid (record q { jobs = update a nzo q.jobs; nzo_list = l })) (sym list) v;
    there = λ n e.
        subst (λ l. get_elem? l n ≡ some a) (sym list)
          (subst (λ i. get_elem? (xs ++ a ∷ ys) i ≡ some a) (sym at ∙ pos-injective e)
            (get_elem?-length a xs ys));
  }
    where
      pos-injective : {m n : ℕ} → pos m ≡ pos n → m ≡ n
      pos-injective e = ground arith

switch_jobs-IsSwitched :
    (q : Queue) (a b : ℕ) (below : Option ℕ)
    → IsValid q
    → contains a q.nzo_list ≡ true
    → contains b q.nzo_list ≡ true
    → (a == b) ≡ false
    → ((p : ℤ) → priority_below q below ≡ some p → rank p ≤ℤ rank_of q.jobs b)
    → IsSwitched a (switch_jobs a b below q)
unfolding switch_jobs
switch_jobs-IsSwitched q a b below v in_a in_b ne low =
    go (sides a b q.nzo_list ne v.list_distinct in_a in_b)
  where
    p : ℤ
    p = adjusted (priority_of q.jobs a) (priority_of q.jobs b) (priority_below q below)

    nzo : Nzo
    nzo = record (q.jobs a) { priority = p }

    ne' : (b == a) ≡ false
    ne' = ground arith

    same_rank : ranks q a nzo a ≡ ranks q a nzo b
    same_rank =
        own_rank q a nzo
        ∙ rank-adjusted (priority_of q.jobs a) (priority_of q.jobs b) (priority_below q below) low
        ∙ other_rank q a nzo b ne'

    go :
        Sides a b q.nzo_list
        → IsSwitched a (moved a p (find_both a b 0 none none q.nzo_list) (set_job a nzo q))
    go (up before between after split ha hb ka kb) =
        let apart =
          or_false (contains b between) (contains b (a ∷ after))
            (sym (contains-append b between (a ∷ after)) ∙ kb) in
        let grouped = split ∙ sym (append_assoc before (b ∷ between) (a ∷ after)) in
        let same = append_assoc before (b ∷ between) after in
        subst (λ o. IsSwitched a (moved a p o (set_job a nzo q)))
          (sym (
            ap (find_both a b 0 none none) split
            ∙ find_both-up a b before between after ne' ha hb ka apart.0))
          (moved-IsSwitched q a nzo p (length before + suc (length between)) (length before) before
            (b ∷ (between ++ after))
            (ap
                (λ l.
                  insert_at (length before) a (delete_at (length before + suc (length between)) l))
                split
              ∙ move-up a b before between after)
            refl
            (reinsert-IsValid q a nzo (before ++ b ∷ between) after before (b ∷ (between ++ after))
              grouped same
              (beside_up (ranks q a nzo) a b before (between ++ after) same_rank (
                subst (Descending (ranks q a nzo)) same
                  (rest-Descending q a nzo (before ++ b ∷ between) after grouped v)))
              v))
    go (down before between after split ha hb ka kb) =
        let apart =
          or_false (contains a between) (contains a (b ∷ after))
            (sym (contains-append a between (b ∷ after)) ∙ ka) in
        let target = append_assoc before between (b ∷ []) in
        let same : before ++ (between ++ b ∷ after) ≡ (before ++ (between ++ b ∷ [])) ++ after =
          simp append_assoc in
        subst (λ o. IsSwitched a (moved a p o (set_job a nzo q)))
          (sym (
            ap (find_both a b 0 none none) split
            ∙ find_both-down a b before between after ne' ha hb apart.0 kb))
          (moved-IsSwitched q a nzo p (length before) (length before + suc (length between))
            (before ++ (between ++ b ∷ [])) after
            (ap
                (λ l.
                  insert_at (length before + suc (length between)) a (delete_at (length before) l))
                split
              ∙ move-down a b before between after)
            (omega
              (arith, length-append before (between ++ b ∷ []), length-append between (b ∷ [])))
            (reinsert-IsValid q a nzo before (between ++ b ∷ after) (before ++ (between ++ b ∷ []))
              after split same
              (subst (λ l. Descending (ranks q a nzo) (l ++ a ∷ after)) target
                (beside_down (ranks q a nzo) a b (before ++ between) after same_rank (
                  subst (Descending (ranks q a nzo)) (sym (append_assoc before between (b ∷ after)))
                    (rest-Descending q a nzo before (between ++ b ∷ after) split v))))
              v))

unmoved-IsSwitched : (q : Queue) (a : ℕ) (r : ℤ) → IsValid q → IsSwitched a ((negsuc 0, r), q)
unmoved-IsSwitched q a r v = record { valid = v; there = λ n e. absurd (impossible n e) }
  where
    impossible : (n : ℕ) → negsuc 0 ≡ pos n → ⊥
    impossible n e = cc

switch_found-IsSwitched :
    (q : Queue) (a : ℕ) (o below : Option ℕ)
    → IsValid q
    → ((b : ℕ)
        → o ≡ some b
        → (p : ℤ) → priority_below q below ≡ some p
        → rank p ≤ℤ rank_of q.jobs b)
    → IsSwitched a (switch_found a o below q)
unfolding switch_found
switch_found-IsSwitched q a none below v low = unmoved-IsSwitched q a (pos 0) v
switch_found-IsSwitched q a (some b) below v low =
    if_ind (IsSwitched a) (contains a q.nzo_table && contains b q.nzo_table && not (a == b))
      (λ all.
        let (in_a, in_b, ne) = parts all in
        switch_jobs-IsSwitched q a b below v (v.same_jobs a ∙ in_a) (v.same_jobs b ∙ in_b) ne
          (low b refl))
      (λ _. unmoved-IsSwitched q a (pos 0) v)
  where
    parts :
        (contains a q.nzo_table && contains b q.nzo_table && not (a == b)) ≡ true
        → (contains a q.nzo_table ≡ true) × (contains b q.nzo_table ≡ true) × ((a == b) ≡ false)
    parts h = ground arith

-- Moving a job to the place of another one keeps a valid queue valid, with the priority adjusted,
-- and a position in the result is the one at which the job stands: the target is the id of a job or
-- an index that does not count from the end.
pub switch-IsSwitched :
    (q : Queue) (id : ℕ) (target : Target)
    → IsValid q
    → IsPlain target
    → IsSwitched id (switch id target q)
unfolding switch
switch-IsSwitched q id target v plain =
    switch_found-IsSwitched q id (target_id q.nzo_list target) (below_target q.nzo_list target) v
      (λ b e p h. below_rank q target b v plain e p h)
