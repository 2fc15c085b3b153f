-- ===== src/Queue/Remove.antt =====
-- sabnzbd/nzbqueue.py: `remove` and `fail_to_history`.
use sabnzbd.Prelude.{
  ℕ, Bool, true, false, ◌==◌, if◌then◌else◌, some, List, [], ◌∷◌, contains, remove_one, keep, ◌≡◌,
  refl, not, ◌&&◌, arith, if_ind, contains-remove_one_ne, contains-remove_one_self,
  remove_one-Distinct, Bool-cases, inl, inr, subst, ==_iff, last, contains-keep, sym, ap, ◌∙◌, ◌++◌,
  map,
}
use sabnzbd.Prelude.Sorted.{remove_one-Descending}
use sabnzbd.Job.{deleted}
use sabnzbd.Queue.State.{
  Queue, purge_data, save_queue, save_job, clear_ready_bytes, postproc_process, IsValid, set_job,
  emit, rank_of,
}
use sabnzbd.Queue.Save.{no_job, save, listed}
use sabnzbd.Queue.Keeps.{
  SameOrder, SameOrder-refl, SameOrder-trans, SameOrder-IsValid, set_job-SameOrder, emit-SameOrder,
  save-SameOrder,
}

unlisted : ℕ → Queue → Queue
unlisted id q =
    set_job id (record (q.jobs id) { removed_from_queue = true })
      (record q { nzo_table = remove_one id q.nzo_table; nzo_list = remove_one id q.nzo_list })

cleaned : ℕ → Bool → Queue → Queue
cleaned id delete_all_data q =
    emit (purge_data id delete_all_data) (set_job id (record (q.jobs id) { status = deleted }) q)

-- The result says whether the job was there; its object stays in the store.
unfoldable pub remove : ℕ → Bool → Bool → Queue → Bool × Queue
unfolding unlisted cleaned
remove id cleanup delete_all_data q =
    if contains id q.nzo_table
    then (let q1 = unlisted id q in
        let q2 = if cleanup then cleaned id delete_all_data q1 else q1 in (true, save no_job q2))
    else (false, q)

-- `fail_to_history` of a job that has an id.
unfoldable pub fail_to_history : ℕ → Queue → Queue
unfolding remove
fail_to_history id q =
    let q1 = (remove id false true q).1 in
    emit (postproc_process id) (emit (clear_ready_bytes (q1.jobs id).files) q1)

unlisted-IsValid : (id : ℕ) (q : Queue) → IsValid q → IsValid (unlisted id q)
unfolding unlisted
unlisted-IsValid id q v =
    let r = record q {
      nzo_table = remove_one id q.nzo_table;
      nzo_list = remove_one id q.nzo_list;
    } in
    SameOrder-IsValid
      (set_job-SameOrder id (record (q.jobs id) { removed_from_queue = true }) r refl)
      (record {
        list_distinct = remove_one-Distinct id q.nzo_list v.list_distinct;
        table_distinct = remove_one-Distinct id q.nzo_table v.table_distinct;
        same_jobs = same;
        ordered = remove_one-Descending (rank_of q.jobs) id q.nzo_list v.ordered;
      })
  where
    same : (a : ℕ) → contains a (remove_one id q.nzo_list) ≡ contains a (remove_one id q.nzo_table)
    same a = elim (Bool-cases (id == a)) [
      | inl e ↦
          subst
            (λ b. contains b (remove_one id q.nzo_list) ≡ contains b (remove_one id q.nzo_table))
            ((==_iff id a).0 e)
            (contains-remove_one_self id q.nzo_list v.list_distinct
              ∙ sym (contains-remove_one_self id q.nzo_table v.table_distinct))
      | inr e ↦
          contains-remove_one_ne a id q.nzo_list e
          ∙ v.same_jobs a
          ∙ sym (contains-remove_one_ne a id q.nzo_table e)
    ]

cleaned-SameOrder :
    (id : ℕ) (delete_all_data : Bool) (q : Queue) → SameOrder q (cleaned id delete_all_data q)
unfolding cleaned
cleaned-SameOrder id delete_all_data q =
    let nzo = record (q.jobs id) { status = deleted } in
    SameOrder-trans (set_job-SameOrder id nzo q refl)
      (emit-SameOrder (purge_data id delete_all_data) (set_job id nzo q))

finish_removal : ℕ → Bool → Bool → Queue → Queue
unfolding cleaned
finish_removal id cleanup delete_all_data q =
    save no_job (if cleanup then cleaned id delete_all_data q else q)

finish_removal-SameOrder :
    (id : ℕ) (cleanup delete_all_data : Bool) (q : Queue)
    → SameOrder q (finish_removal id cleanup delete_all_data q)
unfolding finish_removal
finish_removal-SameOrder id cleanup delete_all_data q =
    SameOrder-trans
      (if_ind (SameOrder q) cleanup (λ _. cleaned-SameOrder id delete_all_data q)
        (λ _. SameOrder-refl q))
      (save-SameOrder no_job (if cleanup then cleaned id delete_all_data q else q))

-- Removing a job, with or without its data, keeps the queue valid.
pub remove-IsValid :
    (id : ℕ) (cleanup delete_all_data : Bool) (q : Queue)
    → IsValid q
    → IsValid (remove id cleanup delete_all_data q).1
unfolding remove finish_removal
remove-IsValid id cleanup delete_all_data q v =
    if_ind (λ (r : Bool × Queue). IsValid r.1) (contains id q.nzo_table)
      (λ _.
        SameOrder-IsValid (finish_removal-SameOrder id cleanup delete_all_data (unlisted id q))
          (unlisted-IsValid id q v))
      (λ _. v)

last-snoc {ℓ} : {A : Type ℓ} (xs : List A) (x : A) → last (xs ++ x ∷ []) ≡ some x
last-snoc [] x = refl
last-snoc (y ∷ []) x = refl
last-snoc (y ∷ z ∷ xs) x = last-snoc (z ∷ xs) x

-- What a removal leaves: the list without the job, and a queue file that does not name it.
pub record IsGone (id : ℕ) (q r : Queue) : Type 0 where
  pub list : r.nzo_list ≡ remove_one id q.nzo_list
  pub unlisted : contains id r.nzo_list ≡ false
  pub no_entry : contains id r.nzo_table ≡ false
  pub file : List ℕ
  pub written : last r.effects ≡ some (save_queue file)
  pub not_in_file : contains id file ≡ false

saved-IsGone :
    (id : ℕ) (q r : Queue)
    → r.nzo_list ≡ remove_one id q.nzo_list
    → r.nzo_table ≡ remove_one id q.nzo_table
    → IsValid q
    → IsGone id q (save no_job r)
unfolding save
saved-IsGone id q r list table v =
    let gone : contains id r.nzo_list ≡ false =
      rw list (contains-remove_one_self id q.nzo_list v.list_distinct) in
    record {
      list = list;
      unlisted = gone;
      no_entry = rw table (contains-remove_one_self id q.nzo_table v.table_distinct);
      file = listed r;
      written =
          last-snoc (r.effects ++ map save_job (keep (λ x. false) (listed r)))
            (save_queue (listed r));
      not_in_file =
          contains-keep id (λ i. not (r.jobs i).removed_from_queue) r.nzo_list
          ∙ ap (λ b. b && not (r.jobs id).removed_from_queue) gone;
    }

-- The removal of a job that a valid queue holds is reported, leaves the other jobs in their order,
-- and is followed by a queue file that does not name the job.
pub remove-IsGone :
    (id : ℕ) (cleanup delete_all_data : Bool) (q : Queue)
    → IsValid q
    → contains id q.nzo_table ≡ true
    → ((remove id cleanup delete_all_data q).0 ≡ true)
      × IsGone id q (remove id cleanup delete_all_data q).1
unfolding remove finish_removal
remove-IsGone id cleanup delete_all_data q v there =
    if_ind (λ (r : Bool × Queue). (r.0 ≡ true) × IsGone id q r.1) (contains id q.nzo_table)
      (λ _. (
        refl,
        saved-IsGone id q
            (if cleanup then cleaned id delete_all_data (unlisted id q) else unlisted id q)
            (if_ind (λ (r : Queue). r.nzo_list ≡ remove_one id q.nzo_list) cleanup (λ _. same_list)
              (λ _. refl))
            (if_ind (λ (r : Queue). r.nzo_table ≡ remove_one id q.nzo_table) cleanup
              (λ _. same_table) (λ _. refl))
            v,
      ))
      (λ absent. absurd (both there absent))
  where
    same_list : (cleaned id delete_all_data (unlisted id q)).nzo_list ≡ remove_one id q.nzo_list
    same_list = refl

    same_table : (cleaned id delete_all_data (unlisted id q)).nzo_table ≡ remove_one id q.nzo_table
    same_table = refl

    both : contains id q.nzo_table ≡ true → contains id q.nzo_table ≡ false → ⊥
    both p n = cc

-- What a removal does to the other jobs and to the list, whether the job is there or not.
pub jobs-remove_other :
    (id j : ℕ) (cleanup delete_all_data : Bool) (q : Queue)
    → (id == j) ≡ false
    → (remove id cleanup delete_all_data q).1.jobs j ≡ q.jobs j
unfolding remove finish_removal save
jobs-remove_other id j cleanup delete_all_data q ne = ground arith

pub contains-remove_other :
    (id j : ℕ) (cleanup delete_all_data : Bool) (q : Queue)
    → (id == j) ≡ false
    → contains j (remove id cleanup delete_all_data q).1.nzo_list ≡ contains j q.nzo_list
unfolding remove finish_removal save
contains-remove_other id j cleanup delete_all_data q ne =
    ground (arith, contains-remove_one_ne j id q.nzo_list ne)

pub contains-remove_self :
    (id : ℕ) (cleanup delete_all_data : Bool) (q : Queue)
    → IsValid q
    → contains id (remove id cleanup delete_all_data q).1.nzo_list ≡ false
contains-remove_self id cleanup delete_all_data q v = elim (Bool-cases (contains id q.nzo_table)) [
  | inl there ↦ (remove-IsGone id cleanup delete_all_data q v there).1.unlisted
  | inr absent ↦ unchanged absent
]
  where
    unchanged :
        contains id q.nzo_table ≡ false
        → contains id (remove id cleanup delete_all_data q).1.nzo_list ≡ false
    unchanged absent =
        unfold remove in
        if_ind (λ (r : Bool × Queue). contains id r.1.nzo_list ≡ false) (contains id q.nzo_table)
          (λ there. absurd (both there absent)) (λ _. v.same_jobs id ∙ absent)
      where
        both : contains id q.nzo_table ≡ true → contains id q.nzo_table ≡ false → ⊥
        both p n = cc
