-- ===== src/Queue/Duplicates/Discard.antt =====
-- sabnzbd/nzbqueue.py: the queue after the duplicates of a finished job are handled.
use sabnzbd.Prelude.{
  ℕ, ◌≡◌, refl, sym, subst, ◌∙◌, Bool, true, false, not, ◌&&◌, ◌||◌, ◌==◌, if_ind, List, [], ◌∷◌,
  contains, arith, Bool-cases, inl, inr, ==_iff,
}
use sabnzbd.Job.{Nzo}
use sabnzbd.Queue.State.{Queue, IsValid}
use sabnzbd.Queue.Remove.{
  remove, fail_to_history, remove-IsValid, jobs-remove_other, contains-remove_other,
  contains-remove_self,
}
use sabnzbd.Queue.Keeps.{SameOrder-IsValid, set_job-SameOrder}
use sabnzbd.Queue.Duplicates.{
  duplicate_nzb, retagged, DupeSettings, is_alternative, is_duplicate_of, started, action_is,
  handle_from, handle_duplicate_alternatives,
}

priority-started : (c : DupeSettings) (nzo : Nzo) → (started c nzo).priority ≡ nzo.priority
unfolding started
priority-started c nzo = ground arith

pub fail_to_history-IsValid : (id : ℕ) (q : Queue) → IsValid q → IsValid (fail_to_history id q)
unfolding fail_to_history
fail_to_history-IsValid id q v =
    let removed = remove-IsValid id false true q v in
    record {
      list_distinct = removed.list_distinct;
      table_distinct = removed.table_distinct;
      same_jobs = removed.same_jobs;
      ordered = removed.ordered;
    }

handle_from-IsValid :
    (c : DupeSettings) (finished : Nzo) (success : Bool) (xs : List ℕ) (q : Queue)
    → IsValid q
    → IsValid (handle_from c finished success xs q)
unfolding handle_from
handle_from-IsValid c finished success [] q v = v
handle_from-IsValid c finished success (x ∷ xs) q v =
    let nzo = q.jobs x in
    let set = λ (n : Nzo) (same : n.priority ≡ nzo.priority).
      SameOrder-IsValid (set_job-SameOrder x n q same) v in
    if_ind IsValid (is_alternative nzo && is_duplicate_of finished nzo)
      (λ _.
        if_ind IsValid (not success) (λ _. set (started c nzo) (priority-started c nzo))
          (λ _.
            if_ind IsValid (action_is 1 c nzo)
              (λ _. handle_from-IsValid c finished success xs _ (remove-IsValid x true true q v))
              (λ _.
                if_ind IsValid (action_is 3 c nzo)
                  (λ _. handle_from-IsValid c finished success xs _ (
                    fail_to_history-IsValid x _
                      (set (record nzo { fail_msg = duplicate_nzb }) refl)))
                  (λ _. set (record nzo { duplicate_mark = retagged nzo.duplicate_mark }) refl))))
      (λ _. handle_from-IsValid c finished success xs q v)

-- Whatever is done about the duplicates of a finished job, the queue stays valid.
pub handle_duplicate_alternatives-IsValid :
    (c : DupeSettings) (finished : Nzo) (success : Bool) (q : Queue)
    → IsValid q
    → IsValid (handle_duplicate_alternatives c finished success q)
unfolding handle_duplicate_alternatives
handle_duplicate_alternatives-IsValid c finished success q v =
    if_ind IsValid ((c.no_dupes == 0) && (c.no_smart_dupes == 0)) (λ _. v)
      (λ _. handle_from-IsValid c finished success q.nzo_list q v)

-- A listed job that is no longer in the copy of the list is no duplicate.
abbrev Clean : Nzo → Queue → List ℕ → Type 0
Clean finished q xs =
    (y : ℕ)
    → contains y q.nzo_list ≡ true
    → contains y xs ≡ false
    → (is_alternative (q.jobs y) && is_duplicate_of finished (q.jobs y)) ≡ false

removed-Clean :
    (finished : Nzo) (q : Queue) (x : ℕ) (xs : List ℕ)
    → IsValid q
    → Clean finished q (x ∷ xs)
    → Clean finished (remove x true true q).1 xs
removed-Clean finished q x xs v clean y there out = elim (Bool-cases (x == y)) [
  | inl e ↦ absurd (gone ((==_iff x y).0 e))
  | inr e ↦
      subst (λ n. (is_alternative n && is_duplicate_of finished n) ≡ false)
        (sym (jobs-remove_other x y true true q e))
        (clean y (sym (contains-remove_other x y true true q e) ∙ there) (either e out))
]
  where
    gone : x ≡ y → ⊥
    gone e = both there (
        subst (λ z. contains z (remove x true true q).1.nzo_list ≡ false) e
          (contains-remove_self x true true q v))
      where
        both :
            contains y (remove x true true q).1.nzo_list ≡ true
            → contains y (remove x true true q).1.nzo_list ≡ false
            → ⊥
        both p n = cc

    either : (x == y) ≡ false → contains y xs ≡ false → ((x == y) || contains y xs) ≡ false
    either e k = ground arith

passed-Clean :
    (finished : Nzo) (q : Queue) (x : ℕ) (xs : List ℕ)
    → (is_alternative (q.jobs x) && is_duplicate_of finished (q.jobs x)) ≡ false
    → Clean finished q (x ∷ xs)
    → Clean finished q xs
passed-Clean finished q x xs other clean y there out = elim (Bool-cases (x == y)) [
  | inl e ↦
      subst (λ z. (is_alternative (q.jobs z) && is_duplicate_of finished (q.jobs z)) ≡ false)
        ((==_iff x y).0 e) other
  | inr e ↦ clean y there (either e out)
]
  where
    either : (x == y) ≡ false → contains y xs ≡ false → ((x == y) || contains y xs) ≡ false
    either e k = ground arith

abbrev Discards : DupeSettings → Type 0
Discards c = (c.no_dupes ≡ 1) × (c.no_smart_dupes ≡ 1)

discard_action : (c : DupeSettings) (nzo : Nzo) → Discards c → action_is 1 c nzo ≡ true
discard_action c nzo d = ground (arith, d.0, d.1)

handle_from-Clean :
    (c : DupeSettings) (finished : Nzo) (xs : List ℕ) (q : Queue)
    → Discards c
    → IsValid q
    → Clean finished q xs
    → Clean finished (handle_from c finished true xs q) []
unfolding handle_from
handle_from-Clean c finished [] q d v clean = clean
handle_from-Clean c finished (x ∷ xs) q d v clean =
    let nzo = q.jobs x in
    if_ind (λ (r : Queue). Clean finished r []) (is_alternative nzo && is_duplicate_of finished nzo)
      (λ _.
        if_ind (λ (r : Queue). Clean finished r []) (action_is 1 c nzo)
          (λ _.
            handle_from-Clean c finished xs (remove x true true q).1 d
              (remove-IsValid x true true q v) (removed-Clean finished q x xs v clean))
          (λ other. absurd (both (discard_action c nzo d) other)))
      (λ other. handle_from-Clean c finished xs q d v (passed-Clean finished q x xs other clean))
  where
    both : {b : Bool} → b ≡ true → b ≡ false → ⊥
    both p n = cc

-- Where duplicates are set to be discarded, a valid queue holds no alternative of a job any more
-- once that job has succeeded.
pub handle_duplicate_alternatives-discard :
    (c : DupeSettings) (finished : Nzo) (q : Queue) (id : ℕ)
    → IsValid q
    → c.no_dupes ≡ 1
    → c.no_smart_dupes ≡ 1
    → contains id (handle_duplicate_alternatives c finished true q).nzo_list ≡ true
    → (is_alternative ((handle_duplicate_alternatives c finished true q).jobs id)
        && is_duplicate_of finished ((handle_duplicate_alternatives c finished true q).jobs id))
      ≡ false
unfolding handle_duplicate_alternatives
handle_duplicate_alternatives-discard c finished q id v plain smart there =
    if_ind (λ (r : Queue). Clean finished r []) ((c.no_dupes == 0) && (c.no_smart_dupes == 0))
      (λ off. absurd (is_on plain off))
      (λ _. handle_from-Clean c finished q.nzo_list q (plain, smart) v at_start) id there refl
  where
    is_on : c.no_dupes ≡ 1 → ((c.no_dupes == 0) && (c.no_smart_dupes == 0)) ≡ true → ⊥
    is_on e off = ground arith

    at_start : Clean finished q q.nzo_list
    at_start y listed out = absurd (both listed out)
      where
        both : contains y q.nzo_list ≡ true → contains y q.nzo_list ≡ false → ⊥
        both p n = cc
