-- ===== src/Queue/Bulk.antt =====
-- sabnzbd/nzbqueue.py: `remove_multiple` and `remove_all`.
use sabnzbd.Prelude.{
  ℕ, ◌≡◌, refl, subst, ◌∙◌, Bool, true, false, ◌&&◌, ◌||◌, inl, inr, ◌==◌, if◌then◌else◌, if_ind,
  List, [], ◌∷◌, ◌++◌, contains, contains-append, keep, Bool-cases, ==_iff, arith,
}
use sabnzbd.Job.{Nzo, Text, is_nil}
use sabnzbd.Queue.State.{Queue, IsValid, emit, disconnect}
use sabnzbd.Queue.Sort.{lower}
use sabnzbd.Queue.Info.{is_substring}
use sabnzbd.Queue.Reads.{actives}
use sabnzbd.Queue.Keeps.{
  SameOrder, SameOrder-refl, SameOrder-IsValid, set_job-SameOrder, emit-SameOrder,
}
use sabnzbd.Queue.Remove.{remove, remove-IsValid, contains-remove_other, contains-remove_self}
use sabnzbd.Queue.Duplicates.{
  DupeSettings, is_alternative, is_duplicate_of, started, handle_from,
  handle_duplicate_alternatives,
}

-- The loop, with the ids that were removed.
unfoldable pub remove_from : DupeSettings → Bool → List ℕ → List ℕ × Queue → List ℕ × Queue
remove_from c delete_all_data [] r = r
remove_from c delete_all_data (id ∷ ids) (removed, q) =
    let (found, q') = remove id true delete_all_data q in
    let go_on = remove_from c delete_all_data ids in
    if found
    then go_on (removed ++ id ∷ [], handle_duplicate_alternatives c (q'.jobs id) false q')
    else go_on (removed, q')

abbrev pub disconnect_if_idle : Bool → Queue → Queue
disconnect_if_idle autodisconnect q =
    if (actives false q == 0) && autodisconnect then emit disconnect q else q

unfoldable pub remove_multiple : DupeSettings → Bool → Bool → List ℕ → Queue → List ℕ × Queue
unfolding remove_from
remove_multiple c autodisconnect delete_all_data ids q =
    let (removed, q') = remove_from c delete_all_data ids ([], q) in
    (removed, disconnect_if_idle autodisconnect q')

abbrev pub is_found : Text → Nzo → Bool
is_found search nzo = is_nil search || is_substring (lower search) (lower nzo.final_name)

unfoldable pub remove_all : DupeSettings → Bool → Text → Queue → List ℕ × Queue
unfolding remove_multiple
remove_all c autodisconnect search q =
    remove_multiple c autodisconnect true (keep (λ id. is_found search (q.jobs id)) q.nzo_table) q

handle_from-failure :
    (c : DupeSettings) (finished : Nzo) (ids : List ℕ) (q : Queue)
    → SameOrder q (handle_from c finished false ids q)
unfolding handle_from
handle_from-failure c finished [] q = SameOrder-refl q
handle_from-failure c finished (x ∷ xs) q =
    if_ind (SameOrder q) (is_alternative (q.jobs x) && is_duplicate_of finished (q.jobs x))
      (λ _. set_job-SameOrder x (started c (q.jobs x)) q (same_priority (q.jobs x)))
      (λ _. handle_from-failure c finished xs q)
  where
    same_priority : (nzo : Nzo) → (started c nzo).priority ≡ nzo.priority
    same_priority nzo = unfold started in ground arith

handle-failure :
    (c : DupeSettings) (finished : Nzo) (q : Queue)
    → SameOrder q (handle_duplicate_alternatives c finished false q)
unfolding handle_duplicate_alternatives
handle-failure c finished q =
    if_ind (SameOrder q) ((c.no_dupes == 0) && (c.no_smart_dupes == 0)) (λ _. SameOrder-refl q)
      (λ _. handle_from-failure c finished q.nzo_list q)

-- The queue is valid, and none of the jobs that were removed is in it.
pub record IsCleared (r : List ℕ × Queue) : Type 0 where
  pub valid : IsValid r.1
  pub gone : (id : ℕ) → contains id r.0 ≡ true → contains id r.1.nzo_list ≡ false

removed-IsCleared :
    (id : ℕ) (delete_all_data : Bool) (removed : List ℕ) (q : Queue)
    → IsCleared (removed, q)
    → IsCleared (removed ++ id ∷ [], (remove id true delete_all_data q).1)
removed-IsCleared id delete_all_data removed q v = record {
  valid = remove-IsValid id true delete_all_data q v.valid;
  gone = λ j h. elim (Bool-cases (id == j)) [
    | inl e ↦
        subst (λ i. contains i (remove id true delete_all_data q).1.nzo_list ≡ false)
          ((==_iff id j).0 e) (contains-remove_self id true delete_all_data q v.valid)
    | inr e ↦
        contains-remove_other id j true delete_all_data q e
        ∙ v.gone j (earlier j e (contains-append j removed (id ∷ [])) h)
  ];
}
  where
    earlier :
        (j : ℕ)
        → (id == j) ≡ false
        → contains j (removed ++ id ∷ []) ≡ (contains j removed || ((id == j) || false))
        → contains j (removed ++ id ∷ []) ≡ true
        → contains j removed ≡ true
    earlier j e split h = ground arith

unlisted-IsCleared :
    (id : ℕ) (delete_all_data : Bool) (removed : List ℕ) (q : Queue)
    → IsCleared (removed, q)
    → IsCleared (removed, (remove id true delete_all_data q).1)
unlisted-IsCleared id delete_all_data removed q v =
    let r = removed-IsCleared id delete_all_data removed q v in
    record {
      valid = r.valid;
      gone = λ j h. r.gone j (contains-append j removed (id ∷ []) ∙ rw h refl);
    }

SameOrder-IsCleared :
    (removed : List ℕ) (q q' : Queue)
    → SameOrder q q'
    → IsCleared (removed, q)
    → IsCleared (removed, q')
SameOrder-IsCleared removed q q' same v = record {
  valid = SameOrder-IsValid same v.valid;
  gone = λ j h. rw same.list (v.gone j h);
}

remove_from-IsCleared :
    (c : DupeSettings) (delete_all_data : Bool) (ids removed : List ℕ) (q : Queue)
    → IsCleared (removed, q)
    → IsCleared (remove_from c delete_all_data ids (removed, q))
unfolding remove_from
remove_from-IsCleared c delete_all_data [] removed q v = v
remove_from-IsCleared c delete_all_data (id ∷ ids) removed q v =
    let q' = (remove id true delete_all_data q).1 in
    if_ind IsCleared (remove id true delete_all_data q).0
      (λ _.
        remove_from-IsCleared c delete_all_data ids (removed ++ id ∷ [])
          (handle_duplicate_alternatives c (q'.jobs id) false q')
          (SameOrder-IsCleared (removed ++ id ∷ []) q' _ (handle-failure c (q'.jobs id) q')
            (removed-IsCleared id delete_all_data removed q v)))
      (λ _.
        remove_from-IsCleared c delete_all_data ids removed q'
          (unlisted-IsCleared id delete_all_data removed q v))

-- When several jobs are removed from a valid queue, it stays valid, and holds none of the jobs that
-- are reported as removed, whatever happens to their duplicates.
pub remove_multiple-IsCleared :
    (c : DupeSettings) (autodisconnect delete_all_data : Bool) (ids : List ℕ) (q : Queue)
    → IsValid q
    → IsCleared (remove_multiple c autodisconnect delete_all_data ids q)
unfolding remove_multiple
remove_multiple-IsCleared c autodisconnect delete_all_data ids q v =
    let r = remove_from c delete_all_data ids ([], q) in
    SameOrder-IsCleared r.0 r.1 _
      (if_ind (SameOrder r.1) ((actives false r.1 == 0) && autodisconnect)
        (λ _. emit-SameOrder disconnect r.1) (λ _. SameOrder-refl r.1))
      (remove_from-IsCleared c delete_all_data ids [] q
        (record { valid = v; gone = λ id h. absurd (cc) }))
