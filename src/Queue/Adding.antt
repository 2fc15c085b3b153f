-- ===== src/Queue/Adding.antt =====
-- sabnzbd/nzbqueue.py: the queue after `add`.
use mathlib.Core.Path.{fun_ext}
use sabnzbd.Prelude.{
  subst, ℕ, ◌≡◌, Bool, true, false, not, ◌&&◌, ◌||◌, if◌then◌else◌, if_ind, Option, none, some,
  contains,
}
use sabnzbd.Job.{Nzo, is_nil}
use sabnzbd.Queue.State.{Queue, IsValid, update, set_job, emit, notify_added, priority_of}
use sabnzbd.Queue.Place.Position.{Placed, place-Placed}
use sabnzbd.Queue.Insert.{insert-IsValid, update-Descending}
use sabnzbd.Queue.Save.{one_job, save}
use sabnzbd.Queue.Sort.{SortField, sort_queue}
use sabnzbd.Queue.Add.{Surroundings, admitted, enqueue, auto_sorted, add, is_fetching}
use sabnzbd.Queue.Keeps.{
  SameOrder, SameOrder-refl, SameOrder-trans, SameOrder-IsValid, save-SameOrder, emit-SameOrder,
  end_job-SameOrder, sort_queue-IsValid,
}

enqueue-IsValid :
    (w : Surroundings) (id : ℕ) (nzo : Nzo) (q : Queue)
    → IsValid q
    → contains id q.nzo_list ≡ false
    → IsValid (enqueue w id nzo q)
unfolding enqueue
enqueue-IsValid w id nzo q v out =
    insert-IsValid q id (admitted w nzo) _ v out
      (place-Placed (priority_of (update id (admitted w nzo) q.jobs)) nzo.priority id q.nzo_list)

auto_sorted-IsValid :
    (w : Surroundings) (quiet : Bool) (q : Queue) → IsValid q → IsValid (auto_sorted w quiet q)
unfolding auto_sorted
auto_sorted-IsValid w quiet q v = if_ind IsValid quiet (λ _. v) (λ _. sorted w.auto_sort)
  where
    sorted :
        (o : Option (Option SortField × Bool))
        → IsValid (elim o [ none ↦ q | some (field, desc) ↦ sort_queue field desc q ])
    sorted none = v
    sorted (some (field, desc)) = sort_queue-IsValid field desc q v

-- The queue with an unlisted job's object stored.
store-IsValid :
    (q : Queue) (id : ℕ) (nzo : Nzo)
    → IsValid q
    → contains id q.nzo_list ≡ false
    → IsValid (set_job id nzo q)
store-IsValid q id nzo v out = record {
  list_distinct = v.list_distinct;
  table_distinct = v.table_distinct;
  same_jobs = v.same_jobs;
  ordered = update-Descending q.jobs id nzo q.nzo_list out v.ordered;
}

saved : Bool → ℕ → Queue → Queue
saved do_save id q = if do_save then save (one_job id) q else q

notified : Bool → ℕ → Queue → Queue
notified quiet id q =
    if quiet || is_fetching (q.jobs id).status then q else emit (notify_added id) q

reported-SameOrder :
    (do_save quiet : Bool) (id : ℕ) (q : Queue)
    → SameOrder q (notified quiet id (saved do_save id q))
unfolding saved notified
reported-SameOrder do_save quiet id q =
    SameOrder-trans
      (if_ind (SameOrder q) do_save (λ _. save-SameOrder (one_job id) q) (λ _. SameOrder-refl q))
      (if_ind (SameOrder (saved do_save id q))
        (quiet || is_fetching ((saved do_save id q).jobs id).status)
        (λ _. SameOrder-refl (saved do_save id q))
        (λ _. emit-SameOrder (notify_added id) (saved do_save id q)))

-- A valid queue that a job is added to stays valid, if the job is new to the queue: whatever the settings,
-- and also if the job has no files and goes on to post-processing, or was only checked before.
pub add-IsValid :
    (w : Surroundings) (id : ℕ) (nzo : Nzo) (do_save quiet : Bool) (q : Queue)
    → IsValid q
    → contains id q.nzo_list ≡ false
    → IsValid (add w id nzo do_save quiet q)
unfolding add saved notified
add-IsValid w id nzo do_save quiet q v out =
    if_ind IsValid (is_nil nzo.files && not nzo.futuretype)
      (λ _.
        SameOrder-IsValid (end_job-SameOrder w id (set_job id nzo q) out)
          (store-IsValid q id nzo v out))
      (λ _. auto_sorted-IsValid w quiet _ (
        SameOrder-IsValid (reported-SameOrder do_save quiet id (enqueue w id nzo q))
          (enqueue-IsValid w id nzo q v out)))

auto_sorted-SameOrder :
    (w : Surroundings) (quiet : Bool) (q : Queue)
    → w.auto_sort ≡ none
    → SameOrder q (auto_sorted w quiet q)
unfolding auto_sorted
auto_sorted-SameOrder w quiet q unsorted =
    if_ind (SameOrder q) quiet (λ _. SameOrder-refl q) (λ _. rw unsorted (SameOrder-refl q))

add-SameOrder :
    (w : Surroundings) (id : ℕ) (nzo : Nzo) (do_save quiet : Bool) (q : Queue)
    → (is_nil nzo.files && not nzo.futuretype) ≡ false
    → w.auto_sort ≡ none
    → SameOrder (enqueue w id nzo q) (add w id nzo do_save quiet q)
unfolding add saved notified
add-SameOrder w id nzo do_save quiet q joins unsorted =
    if_ind (SameOrder (enqueue w id nzo q)) (is_nil nzo.files && not nzo.futuretype)
      (λ idle. absurd (both idle joins))
      (λ _.
        SameOrder-trans (reported-SameOrder do_save quiet id (enqueue w id nzo q))
          (auto_sorted-SameOrder w quiet _ unsorted))
  where
    both :
        (is_nil nzo.files && not nzo.futuretype) ≡ true
        → (is_nil nzo.files && not nzo.futuretype) ≡ false
        → ⊥
    both p q = cc

enqueue-Placed :
    (w : Surroundings) (id : ℕ) (nzo : Nzo) (q : Queue)
    → IsValid q
    → contains id q.nzo_list ≡ false
    → Placed
        (priority_of (enqueue w id nzo q).jobs)
        nzo.priority
        id
        q.nzo_list
        (enqueue w id nzo q).nzo_list
unfolding enqueue
enqueue-Placed w id nzo q v out =
    place-Placed (priority_of (update id (admitted w nzo) q.jobs)) nzo.priority id q.nzo_list
      (update-Descending q.jobs id (admitted w nzo) q.nzo_list out v.ordered)

-- A job that joins a valid queue without auto-sort stands behind the jobs of at least its rank and
-- before those of at most its rank, a job of normal or high priority even before those of a lower
-- rank only; the other jobs keep their order. Ranks count all from Force upwards as one, and all
-- from Low downwards.
pub add-Placed :
    (w : Surroundings) (id : ℕ) (nzo : Nzo) (do_save quiet : Bool) (q : Queue)
    → IsValid q
    → contains id q.nzo_list ≡ false
    → (is_nil nzo.files && not nzo.futuretype) ≡ false
    → w.auto_sort ≡ none
    → Placed
        (priority_of (add w id nzo do_save quiet q).jobs)
        nzo.priority
        id
        q.nzo_list
        (add w id nzo do_save quiet q).nzo_list
add-Placed w id nzo do_save quiet q v out joins unsorted =
    let same = add-SameOrder w id nzo do_save quiet q joins unsorted in
    rw same.list (
      subst (λ f. Placed f nzo.priority id q.nzo_list (enqueue w id nzo q).nzo_list)
        (fun_ext same.priorities) (enqueue-Placed w id nzo q v out))
