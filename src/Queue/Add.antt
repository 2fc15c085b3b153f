-- ===== src/Queue/Add.antt =====
-- sabnzbd/nzbqueue.py: `add`, `end_job` and `send_back`.
use sabnzbd.Prelude.{
  ℕ, Bool, true, false, not, ◌&&◌, ◌||◌, ◌==◌, if◌then◌else◌, Option, none, some, List, [], ◌∷◌,
  insert_at, contains, remove_one, add_key, ℤ, suc,
}
use sabnzbd.Job.{Nzo, paused, fetching, is_nil, Status}
use sabnzbd.Queue.State.{
  Queue, save_job, assembler_process, notify_added, set_job, emit, priority_of,
}
use sabnzbd.Queue.Place.{place}
use sabnzbd.Queue.Save.{one_job, save}
use sabnzbd.Queue.Sort.{SortField, sort_queue}

-- What the queue asks of other components: the schedule's verdict on a job of a priority
-- (Scheduler.analyse), whether the job's admin folder holds its NZB, the parser that makes a new job
-- from that NZB (`process_single_nzb`, with the ids that it adds when its result is 0), and the
-- setting `auto_sort`: a field and whether the order is descending.
pub record Surroundings : Type 0 where
  pub analyse : ℤ → Bool
  pub has_nzb : ℕ → Bool
  pub process_single_nzb : ℕ → Queue → List ℕ × Queue
  pub auto_sort : Option (Option SortField × Bool)

-- l.index(x); `none` is a ValueError.
abbrev pub index_of? : ℕ → List ℕ → Option ℕ
index_of? a [] = none
index_of? a (x ∷ xs) =
    let rest = index_of? a xs in
    if x == a then some 0 else elim rest [ none ↦ none | some n ↦ some (suc n) ]

-- The new job takes the position of the old one. A ValueError ends the step.
unfoldable pub swap_to : ℕ → List ℕ × Queue → Queue
swap_to old_position ([], q) = q
swap_to old_position (new ∷ _, q) =
    if contains new q.nzo_table && contains new q.nzo_list
    then set_job new (record (q.jobs new) { reuse = false })
        (record q { nzo_list = insert_at old_position new (remove_one new q.nzo_list) })
    else q

unfoldable pub send_back : Surroundings → ℕ → Queue → Queue
unfolding swap_to
send_back w old q =
    if w.has_nzb old
    then elim (index_of? old q.nzo_list) [
      | none ↦ q
      | some n ↦ swap_to n (w.process_single_nzb old q)
    ]
    else q

unfoldable pub end_marked : Surroundings → ℕ → Queue → Queue
unfolding send_back
end_marked w id q =
    if (q.jobs id).precheck
    then (let q' = emit (save_job id) q in
        if is_nil (q.jobs id).fail_msg then send_back w id q' else emit (assembler_process id) q')
    else emit (assembler_process id) q

-- A job goes on to post-processing once, or back to the queue after a successful pre-check.
unfoldable pub end_job : Surroundings → ℕ → Queue → Queue
unfolding end_marked
end_job w id q =
    if (q.jobs id).removed_from_queue
    then q
    else end_marked w id (set_job id (record (q.jobs id) { removed_from_queue = true }) q)

-- The job as it enters the queue.
unfoldable pub admitted : Surroundings → Nzo → Nzo
admitted w nzo = record nzo {
  try_list = [];
  removed_from_queue = false;
  status = if w.analyse nzo.priority then paused else nzo.status;
}

abbrev pub is_fetching : Status → Bool
is_fetching fetching = true
is_fetching _ = false

unfoldable pub auto_sorted : Surroundings → Bool → Queue → Queue
auto_sorted w quiet q =
    if quiet
    then q
    else elim w.auto_sort [ none ↦ q | some (field, desc) ↦ sort_queue field desc q ]

unfoldable pub enqueue : Surroundings → ℕ → Nzo → Queue → Queue
unfolding admitted place
enqueue w id nzo q =
    let q' = set_job id (admitted w nzo) q in
    record q' {
      nzo_table = add_key id q.nzo_table;
      nzo_list = place (priority_of q'.jobs) nzo.priority id q.nzo_list;
    }

-- `add` of the job with the id that it has, or with a new one from `get_new_id`.
unfoldable pub add : Surroundings → ℕ → Nzo → Bool → Bool → Queue → Queue
unfolding end_job enqueue auto_sorted
add w id nzo do_save quiet q =
    if is_nil nzo.files && not nzo.futuretype
    then end_job w id (set_job id nzo q)
    else (let q1 = enqueue w id nzo q in
        let q2 = if do_save then save (one_job id) q1 else q1 in
        let q3 =
          if quiet || is_fetching (q2.jobs id).status then q2 else emit (notify_added id) q2 in
        auto_sorted w quiet q3)
