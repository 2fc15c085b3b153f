-- ===== src/Queue/SetPriority.antt =====
-- sabnzbd/nzbqueue.py: `__set_priority` and `set_priority`.
pub mod Order
pub mod Many
use sabnzbd.Prelude.{
  ℕ, zero, suc, ◌≡◌, refl, ap, sym, subst, ◌∙◌, Bool, true, false, ◌&&◌, ◌||◌, ◌==◌, if◌then◌else◌,
  if_ind, Option, none, some, List, [], ◌∷◌, ◌++◌, length, delete_at, remove_one, contains, last,
  get_elem?, ℤ, pos, negsuc, eqb_ℤ, arith, Bool-cases, inl, inr, Option-cases, ==_iff, ==_refl,
}
use sabnzbd.Job
use sabnzbd.Job.{
  Nzo, Status, paused, queued, is_paused, is_waiting, stop_priority, force_priority, low_priority,
  valid_priority,
}
use sabnzbd.Queue.State.{Queue, Effect, save_job, set_job, emit, priority_of}
use sabnzbd.Queue.Place.{place_below}
use sabnzbd.Queue.Add.{Surroundings, end_job, index_of?}

-- The status of a job whose priority has changed.
unfoldable pub reconsidered : Bool → Status → Status
reconsidered held status =
    if held && is_waiting status then paused else if is_paused status then queued else status

unfoldable pub changed : Surroundings → ℤ → Nzo → Nzo
unfolding reconsidered
changed w priority nzo =
    let nzo' = Job.set_priority priority nzo in
    record nzo' { status = reconsidered (w.analyse priority) nzo.status }

-- The new position of a job that was taken out of the list.
unfoldable pub replaced : (ℕ → ℤ) → ℤ → ℕ → List ℕ → ℕ × List ℕ
replaced f priority id rest =
    if eqb_ℤ priority force_priority
    then (0, id ∷ rest)
    else if eqb_ℤ priority low_priority
    then (length rest, rest ++ id ∷ [])
    else place_below f priority id rest

-- The job `nzo_list[nzo_id_pos1]`, where a position of -1 is the last one.
abbrev pub at_position : Option ℕ → List ℕ → Option ℕ
at_position none xs = last xs
at_position (some n) xs = get_elem? xs n

abbrev pub as_position : Option ℕ → ℤ
as_position none = negsuc 0
as_position (some n) = pos n

unfoldable pub move_to : ℤ → ℕ → Option ℕ → Queue → Option ℤ × Queue
unfolding replaced
move_to priority id none q = (some (negsuc 0), q)
move_to priority id (some n) q =
    let (p, list) = replaced (priority_of q.jobs) priority id (delete_at n q.nzo_list) in
    (some (pos p), record q { nzo_list = list })

unfoldable pub set_listed : Surroundings → ℕ → ℤ → Option ℕ → Option ℕ → Queue → Option ℤ × Queue
unfolding changed move_to
set_listed w id priority position none q = (some (negsuc 0), q)
set_listed w id priority position (some j) q =
    if eqb_ℤ priority (q.jobs j).priority
    then (some (as_position position), q)
    else move_to priority id position
        (emit (save_job id) (set_job id (changed w priority (q.jobs id)) q))

-- `__set_priority`, its value converted already: the new position, None for Stop, -1 on failure.
unfoldable pub set_priority_one : Surroundings → ℕ → ℤ → Queue → Option ℤ × Queue
unfolding end_job set_listed
set_priority_one w id priority q =
    if contains id q.nzo_table
    then (if eqb_ℤ priority stop_priority
        then (none, end_job w id q)
        else (let position = index_of? id q.nzo_list in
            set_listed w id priority position (at_position position q.nzo_list) q))
    else (some (negsuc 0), q)

-- The loop of `set_priority`: the result is that of the last job.
pub set_from : Surroundings → ℤ → Option ℤ → List ℕ → Queue → Option ℤ × Queue
set_from w priority n [] q = (n, q)
set_from w priority n (id ∷ ids) q =
    let (n', q') = set_priority_one w id priority q in set_from w priority n' ids q'

pub set_priority : Surroundings → List ℕ → ℤ → Queue → Option ℤ × Queue
unfolding set_from set_priority_one
set_priority w ids priority q = set_from w priority (some (negsuc 0)) ids q
