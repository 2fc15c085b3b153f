-- ===== src/Queue/Keeps.antt =====
-- sabnzbd/nzbqueue.py: steps that leave the list, the table and all priorities as they are.
use sabnzbd.Prelude.{
  ℕ, ◌≡◌, refl, sym, Bool, true, ◌==◌, some, none, Option, ap, Bool-cases, inl, inr, if_ind, ==_iff,
  ◌∙◌, List, [], ◌∷◌, contains, or_false, false,
}
use sabnzbd.Prelude.Sorted.{Descending-ext}
use sabnzbd.Job.{Nzo, paused, is_nil}
use sabnzbd.Queue.State.{
  Queue, Effect, assembler_process, save_job, IsValid, update, set_job, emit, priority_of, rank,
  rank_of,
}
use sabnzbd.Queue.Save.{SaveTarget, save, pause_job}
use sabnzbd.Queue.Add.{Surroundings, index_of?, send_back, end_job, end_marked}
use sabnzbd.Queue.Sort.{
  SortField, sort_queue, sort, field_lt, priority_gt, contains-sort, sort-Distinct,
}
use sabnzbd.Queue.Sort.Order.{sort-Descending}

pub record SameOrder (q r : Queue) : Type 0 where
  pub list : r.nzo_list ≡ q.nzo_list
  pub table : r.nzo_table ≡ q.nzo_table
  pub priorities : (id : ℕ) → priority_of q.jobs id ≡ priority_of r.jobs id

pub SameOrder-refl : (q : Queue) → SameOrder q q
SameOrder-refl q = record { list = refl; table = refl; priorities = λ id. refl }

pub SameOrder-IsValid : {q r : Queue} → SameOrder q r → IsValid q → IsValid r
SameOrder-IsValid {q} {r} s v = record {
  list_distinct = rw s.list v.list_distinct;
  table_distinct = rw s.table v.table_distinct;
  same_jobs = λ id. rw s.list (rw s.table (v.same_jobs id));
  ordered = rw s.list (
      Descending-ext (rank_of q.jobs) (rank_of r.jobs) (λ id. ap rank (s.priorities id)) q.nzo_list
        v.ordered);
}

pub set_job-SameOrder :
    (id : ℕ) (nzo : Nzo) (q : Queue)
    → nzo.priority ≡ (q.jobs id).priority
    → SameOrder q (set_job id nzo q)
set_job-SameOrder id nzo q same = record {
  list = refl;
  table = refl;
  priorities = λ x. same_priority x;
}
  where
    same_priority : (x : ℕ) → (q.jobs x).priority ≡ (update id nzo q.jobs x).priority
    same_priority x = elim (Bool-cases (x == id)) [
      | inl e ↦ rw e (rw ((==_iff x id).0 e) (sym same))
      | inr e ↦ rw e
    ]

pub emit-SameOrder : (e : Effect) (q : Queue) → SameOrder q (emit e q)
emit-SameOrder e q = record { list = refl; table = refl; priorities = λ id. refl }

pub SameOrder-trans : {q r s : Queue} → SameOrder q r → SameOrder r s → SameOrder q s
SameOrder-trans a b = record {
  list = b.list ∙ a.list;
  table = b.table ∙ a.table;
  priorities = λ id. a.priorities id ∙ b.priorities id;
}

pub save-SameOrder : (target : SaveTarget) (q : Queue) → SameOrder q (save target q)
unfolding save
save-SameOrder target q = record { list = refl; table = refl; priorities = λ id. refl }

pub pause_job-SameOrder : (id : ℕ) (q : Queue) → SameOrder q (pause_job id q)
unfolding pause_job
pause_job-SameOrder id q =
    let marked = set_job-SameOrder id (record (q.jobs id) { status = paused }) q refl in
    if_ind (SameOrder q) (q.jobs id).removed_from_queue (λ _. marked)
      (λ _. SameOrder-trans marked (emit-SameOrder _ _))

index_of?-absent : (id : ℕ) (xs : List ℕ) → contains id xs ≡ false → index_of? id xs ≡ none
index_of?-absent id [] h = refl
index_of?-absent id (x ∷ xs) h =
    let (other, rest) = or_false (x == id) (contains id xs) h in
    rw other (rw (index_of?-absent id xs rest) refl)

-- A job that is not in the list has no position to go back to.
send_back-SameOrder :
    (w : Surroundings) (id : ℕ) (q : Queue)
    → contains id q.nzo_list ≡ false
    → SameOrder q (send_back w id q)
unfolding send_back
send_back-SameOrder w id q out =
    if_ind (SameOrder q) (w.has_nzb id)
      (λ _. rw (index_of?-absent id q.nzo_list out) (SameOrder-refl q)) (λ _. SameOrder-refl q)

end_marked-SameOrder :
    (w : Surroundings) (id : ℕ) (q : Queue)
    → contains id q.nzo_list ≡ false
    → SameOrder q (end_marked w id q)
unfolding end_marked
end_marked-SameOrder w id q out =
    if_ind (SameOrder q) (q.jobs id).precheck
      (λ _.
        if_ind (SameOrder q) (is_nil (q.jobs id).fail_msg)
          (λ _.
            SameOrder-trans (emit-SameOrder (save_job id) q)
              (send_back-SameOrder w id (emit (save_job id) q) out))
          (λ _.
            SameOrder-trans (emit-SameOrder (save_job id) q)
              (emit-SameOrder (assembler_process id) (emit (save_job id) q))))
      (λ _. emit-SameOrder (assembler_process id) q)

pub end_job-SameOrder :
    (w : Surroundings) (id : ℕ) (q : Queue)
    → contains id q.nzo_list ≡ false
    → SameOrder q (end_job w id q)
unfolding end_job
end_job-SameOrder w id q out =
    if_ind (SameOrder q) (q.jobs id).removed_from_queue (λ _. SameOrder-refl q)
      λ _.
        let nzo = record (q.jobs id) { removed_from_queue = true } in
        SameOrder-trans (set_job-SameOrder id nzo q refl)
          (end_marked-SameOrder w id (set_job id nzo q) out)

-- A valid queue stays valid when it is sorted, by any field, in either direction.
pub sort_queue-IsValid :
    (field : Option SortField) (desc : Bool) (q : Queue)
    → IsValid q
    → IsValid (sort_queue field desc q)
unfolding sort_queue
sort_queue-IsValid none desc q v = v
sort_queue-IsValid (some field) desc q v =
    let xs = sort (field_lt field desc q.jobs) q.nzo_list in
    record {
      list_distinct =
          sort-Distinct (priority_gt q.jobs) xs
            (sort-Distinct (field_lt field desc q.jobs) q.nzo_list v.list_distinct);
      table_distinct = v.table_distinct;
      same_jobs = λ id.
          contains-sort (priority_gt q.jobs) id xs
          ∙ contains-sort (field_lt field desc q.jobs) id q.nzo_list
          ∙ v.same_jobs id;
      ordered = sort-Descending q.jobs xs;
    }
