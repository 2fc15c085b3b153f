-- ===== src/PostProc/Listed.antt =====
-- sabnzbd/postproc.py: the jobs that the post-processor shows, queues and saves.

pub mod Views
pub mod Arriving
pub mod Taking
use sabnzbd.Prelude.{
  ℕ, ◌≡◌, refl, ap, sym, ◌∙◌, Bool, true, false, not, ◌&&◌, ◌||◌, ◌⊎◌, ◌==◌, leb, if_ind,
  if◌then◌else◌, Option, none, some, List, [], ◌∷◌, ◌++◌, contains, remove_one, arith, Bool-cases,
  inl, inr, both, ==_refl, add_key, Option-cases, subst,
}
use sabnzbd.Job.{is_nil, queued}
use sabnzbd.PostProc.{
  Nzo, PostProcessor, max_fast_job_count, set_job, enlist, is_fast, put, process, find_job,
  deletion, after_processing, at_once, not_at_all, Deletion, delete_job, delete, stop, pause,
  resume, cancel_pp, cancel_job, cancel_from, delete_found, emit, remove_from_history, purge_data,
  take_slow, take_fast, take_next, remove,
}
use sabnzbd.PostProc.Loop.{
  World, At, at_head, at_wait, awake, at_clear, ended, at_work, Thread, start_job, no_job, take_job,
  finish_job, advance_at, advance, Event, step, stopping, pausing, resuming, processing, deleting,
  canceling, happen, Reach, here, next,
}
use sabnzbd.PostProc.Listed.Views.{
  View, IsListed, work-IsListed, removed-IsListed, deleted-IsListed,
}
use sabnzbd.PostProc.Listed.Arriving.{fast-IsListed, slow-IsListed}
use sabnzbd.PostProc.Listed.Taking.{take_fast-IsListed, take_slow-IsListed}

abbrev pub is_current : At → ℕ → Bool
is_current (at_work i) j = i == j
is_current _ j = false

abbrev pub view : At → PostProcessor → View
view a p = record {
  history = p.history_queue;
  fast = p.fast_queue;
  slow = p.slow_queue;
  saved = p.saved;
  work = λ j. (p.jobs j).work_name;
  current = is_current a;
}

abbrev pub Listed : At → PostProcessor → Type 0
Listed a p = IsListed (view a p)

set_job-work :
    (i : ℕ) (f : Nzo → Nzo) (p : PostProcessor)
    → ((nzo : Nzo) → (f nzo).work_name ≡ nzo.work_name)
    → (j : ℕ) → ((set_job i f p).jobs j).work_name ≡ (p.jobs j).work_name
set_job-work i f p keeps j =
    if_ind (λ (n : Nzo). n.work_name ≡ (p.jobs j).work_name) (j == i) (λ _. keeps (p.jobs j))
      (λ _. refl)

set_job-Listed :
    (i : ℕ) (f : Nzo → Nzo) (a : At) (p : PostProcessor)
    → ((nzo : Nzo) → (f nzo).work_name ≡ nzo.work_name)
    → Listed a p
    → Listed a (set_job i f p)
set_job-Listed i f a p keeps h =
    work-IsListed (view a p) h (λ j. ((set_job i f p).jobs j).work_name) (set_job-work i f p keeps)

-- A job may come when it has a name and is neither queued nor processed.
abbrev pub IsFresh : ℕ → At → PostProcessor → Type 0
IsFresh j a p =
    ((contains j p.fast_queue || contains j p.slow_queue || is_current a j) ≡ false)
    × ((p.jobs j).work_name ≡ true)

process-Listed :
    (j : ℕ) (a : At) (p : PostProcessor) → IsFresh j a p → Listed a p → Listed a (process j p)
unfolding process
process-Listed j a p (fresh, name) h =
    let q = set_job j (λ nzo. record nzo { status = queued }) p in
    let keeps = set_job-work j (λ nzo. record nzo { status = queued }) p (λ _. refl) in
    let h' = set_job-Listed j (λ nzo. record nzo { status = queued }) a p (λ _. refl) h in
    if_ind (λ (r : PostProcessor). Listed a (record r { saved = r.history_queue }))
      (is_fast (q.jobs j).direct_unpacker)
      (λ _. fast-IsListed (view a q) h' j fresh (keeps j ∙ name))
      (λ _. slow-IsListed (view a q) h' j fresh (keeps j ∙ name))

set_job-other :
    (i j : ℕ) (f : Nzo → Nzo) (p : PostProcessor)
    → (i == j) ≡ false
    → ((set_job i f p).jobs j).work_name ≡ (p.jobs j).work_name
set_job-other i j f p ne =
    if_ind (λ (n : Nzo). n.work_name ≡ (p.jobs j).work_name) (j == i) (λ e. absurd (flip e))
      (λ _. refl)
  where
    flip : (j == i) ≡ true → ⊥
    flip e = ground (arith, ne)

-- The job leaves the list: it lost its name, or it was the one that was processed.
remove-Listed :
    (i : ℕ) (f : Nzo → Nzo) (a b : At) (p : PostProcessor)
    → ((contains i p.fast_queue || contains i p.slow_queue || is_current b i) ≡ true
        → (f (p.jobs i)).work_name ≡ false)
    → ((j : ℕ) → (i == j) ≡ false → is_current b j ≡ is_current a j)
    → ((j : ℕ) → is_current b j ≡ true → is_current a j ≡ true)
    → Listed a p
    → Listed b (record (set_job i f p) {
      history_queue = remove_one i p.history_queue;
      saved = remove_one i p.history_queue;
    })
remove-Listed i f a b p off others less h =
    removed-IsListed (view a p) h i (λ j. ((set_job i f p).jobs j).work_name)
      (λ j ne. set_job-other i j f p ne) (is_current b) (λ q. own ∙ off q) others less
  where
    own : ((set_job i f p).jobs i).work_name ≡ (f (p.jobs i)).work_name
    own = rw (==_refl i) refl

delete-Listed :
    (nzo_id : ℕ) (del_files : Bool) (a : At) (p : PostProcessor)
    → Listed a p
    → Listed a (delete nzo_id del_files p)
unfolding delete delete_found delete_job remove
delete-Listed nzo_id del_files a p h = found (find_job nzo_id p.jobs p.history_queue)
  where
    kind : (j : ℕ) (d : Deletion) → Listed a (delete_job del_files j d p)
    kind j after_processing =
        set_job-Listed j (λ nzo. record nzo { to_be_removed = true }) a p (λ _. refl) h
    kind j at_once =
        remove-Listed j (λ nzo. record nzo { work_name = false }) a a p (λ _. refl) (λ j _. refl)
          (λ j c. c) h
    kind j not_at_all = h

    found : (o : Option ℕ) → Listed a (delete_found del_files o p)
    found none = h
    found (some j) = kind j (deletion (p.jobs j).status)

cancel-Listed :
    (nzo_ids : List ℕ) (a : At) (p : PostProcessor) → Listed a p → Listed a (cancel_pp nzo_ids p).1
unfolding cancel_pp
cancel-Listed nzo_ids a p h = first p.history_queue
  where
    cancelled : (j : ℕ) → Listed a (cancel_job j p)
    cancelled j =
        if_ind (Listed a) (p.jobs j).pp_active
          (λ _. set_job-Listed j (λ nzo. record nzo { pp_active = false }) a p (λ _. refl) h)
          (λ _. h)

    first : (l : List ℕ) → Listed a (cancel_from nzo_ids l p).1
    first [] = h
    first (j ∷ _) =
        if_ind (λ (r : Option Bool × PostProcessor). Listed a r.1)
          (contains (p.jobs j).nzo_id nzo_ids) (λ _. cancelled j) (λ _. h)

-- What the loop takes is the job that it processes.
abbrev Took : Option ℕ × PostProcessor → Type 0
Took (none, p) = Listed awake p
Took (some j, p) = Listed (at_work j) p

take_slow-Took :
    (l : List ℕ) (p : PostProcessor) → p.slow_queue ≡ l → Listed awake p → Took (take_slow l p)
take_slow-Took [] p e h = h
take_slow-Took (j ∷ rest) p e h = take_slow-IsListed (view awake p) h j (λ _. refl) rest e

take_next-Took : (p : PostProcessor) → Listed awake p → Took (take_next p)
unfolding take_next
take_next-Took p h =
    if_ind Took (leb max_fast_job_count p.fast_job_count && not (is_nil p.slow_queue)) (λ _. slow)
      (λ _. fast p.fast_queue refl)
  where
    slow : Took (take_slow p.slow_queue p)
    slow = take_slow-Took p.slow_queue p refl h

    fast : (l : List ℕ) → p.fast_queue ≡ l → Took (take_fast l p)
    fast [] e = slow
    fast (j ∷ rest) e = take_fast-IsListed (view awake p) h j (λ _. refl) rest e

abbrev pub IsInOrder : Thread → Type 0
IsInOrder t = Listed t.at t.state

take_job-IsInOrder :
    (w : World) (t : Thread) (r : Option ℕ × PostProcessor) → Took r → IsInOrder (take_job w t r)
unfolding take_job start_job no_job
take_job-IsInOrder w t (none, p) h =
    if_ind IsInOrder (t.check_eoq && is_nil p.fast_queue && is_nil p.slow_queue) (λ _. h) (λ _. h)
take_job-IsInOrder w t (some j, p) h =
    if_ind IsInOrder (p.jobs j).work_name
      (λ _. set_job-Listed j (λ nzo. record nzo { pp_active = true }) (at_work j) p (λ _. refl) h)
      (λ deleted. deleted-IsListed (view (at_work j) p) h j deleted (λ _. refl))

finish_job-IsInOrder :
    (w : World) (j : ℕ) (t : Thread) → Listed (at_work j) t.state → IsInOrder (finish_job w j t)
unfolding finish_job remove
finish_job-IsInOrder w j t h =
    let p = set_job j (w.process_job j) t.state in
    if_ind
      (λ (q : PostProcessor).
        Listed at_head (remove j (set_job j (λ nzo. record nzo { pp_active = false }) q)))
      (p.jobs j).to_be_removed (λ _. out) (λ _. out)
  where
    out : Listed at_head (
        remove j (
          set_job j
            (λ nzo. record nzo { pp_active = false })
            (set_job j (w.process_job j) t.state)))
    out =
        let p = set_job j (w.process_job j) t.state in
        let idle : Nzo → Nzo = λ nzo. record nzo { pp_active = false } in
        removed-IsListed (view (at_work j) t.state) h j (λ k. ((set_job j idle p).jobs k).work_name)
          (λ k ne. set_job-other j k idle p ne ∙ set_job-other j k (w.process_job j) t.state ne)
          (is_current at_head)
          (λ q. absurd (
            both
              (sym (or_nothing (contains j t.state.fast_queue) (contains j t.state.slow_queue)) ∙ q)
              (h.idle j (==_refl j))))
          (λ k ne. sym ne) (λ k c. absurd (no c))
      where
        or_nothing : (a b : Bool) → (a || b || false) ≡ (a || b)
        or_nothing a b = ground arith

        no : false ≡ true → ⊥
        no e = cc

advance-IsInOrder :
    (w : World) (a : At) (t : Thread) → t.at ≡ a → Listed a t.state → IsInOrder (advance_at w a t)
unfolding advance_at
advance-IsInOrder w at_head t e h = if_ind IsInOrder t.state.stopped (λ _. h) (λ _. h)
advance-IsInOrder w at_wait t e h =
    if_ind IsInOrder t.state.work_available (λ _. h) (λ _. subst (λ a. Listed a t.state) (sym e) h)
advance-IsInOrder w awake t e h =
    if_ind IsInOrder t.state.stopped (λ _. h)
      (λ _.
        if_ind IsInOrder t.state.is_paused (λ _. h)
          (λ _. take_job-IsInOrder w t (take_next t.state) (take_next-Took t.state h)))
advance-IsInOrder w at_clear t e h = h
advance-IsInOrder w ended t e h = subst (λ a. Listed a t.state) (sym e) h
advance-IsInOrder w (at_work j) t e h = finish_job-IsInOrder w j t h

-- Only a job with a name that is neither queued nor processed is handed over.
abbrev pub Handed : Event → Thread → Type 0
Handed (processing j) t = IsFresh j t.at t.state
Handed _ t = Unit

happen-IsInOrder :
    (w : World) (e : Event) (t : Thread) → Handed e t → IsInOrder t → IsInOrder (happen w e t)
unfolding happen advance stop pause resume
happen-IsInOrder w step t _ h = advance-IsInOrder w t.at t refl h
happen-IsInOrder w stopping t _ h = h
happen-IsInOrder w pausing t _ h = h
happen-IsInOrder w resuming t _ h = h
happen-IsInOrder w (processing j) t fresh h = process-Listed j t.at t.state fresh h
happen-IsInOrder w (deleting nzo_id del_files) t _ h = delete-Listed nzo_id del_files t.at t.state h
happen-IsInOrder w (canceling nzo_ids) t _ h = cancel-Listed nzo_ids t.at t.state h

-- Whatever the order of the steps of the thread and the calls of the others, in which a job is handed
-- over only when it has a name and is neither queued nor processed: no job is queued twice or queued
-- while it is processed, the list has just the jobs that are queued or
-- processed and have their name (a job that was deleted has lost it), each once, and the saved list is
-- the list.
pub Reach-IsInOrder : (w : World) (t u : Thread) → Reach w Handed t u → IsInOrder t → IsInOrder u
Reach-IsInOrder w t u here h = h
Reach-IsInOrder w t u (next e r handed) h =
    happen-IsInOrder w e _ handed (Reach-IsInOrder w t _ r h)
