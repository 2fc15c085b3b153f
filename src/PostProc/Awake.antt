-- ===== src/PostProc/Awake.antt =====
-- sabnzbd/postproc.py: the event `work_available`, on which the thread of the post-processor waits.
use sabnzbd.Prelude.{
  ℕ, ◌≡◌, refl, ap, sym, subst, ◌∙◌, Bool, true, false, not, ◌&&◌, ◌||◌, ◌⊎◌, inl, inr, ◌==◌, leb,
  if_ind, Option, none, some, List, [], ◌∷◌, ◌++◌, contains, contains-append, arith, ==_refl, both,
}
use sabnzbd.Job.{is_nil, queued}
use sabnzbd.PostProc.{
  PostProcessor, max_fast_job_count, set_job, enlist, is_fast, process, find_job, deletion,
  after_processing, at_once, not_at_all, Deletion, delete_job, delete_found, delete, stop, pause,
  resume, cancel_pp, cancel_from, take_slow, take_fast, take_next, remove,
}
use sabnzbd.PostProc.Loop.{
  World, At, at_head, at_wait, awake, at_clear, ended, at_work, Thread, start_job, no_job, take_job,
  finish_job, advance_at, advance, Event, step, stopping, pausing, resuming, processing, deleting,
  canceling, happen, Reach, here, next,
}

-- There is nothing to do now.
abbrev pub NoWork : PostProcessor → Type 0
NoWork p = ((p.fast_queue ≡ []) × (p.slow_queue ≡ [])) ⊎ (p.is_paused ≡ true)

-- A thread that waits without the event has nothing to do, and was not stopped.
abbrev pub WaitsWell : At → PostProcessor → Type 0
WaitsWell at_head p = p.work_available ≡ false → NoWork p
WaitsWell at_wait p = p.work_available ≡ false → NoWork p × (p.stopped ≡ false)
WaitsWell awake p = p.work_available ≡ true
WaitsWell at_clear p = NoWork p
WaitsWell (at_work _) p = p.work_available ≡ true
WaitsWell ended p = Unit

abbrev pub IsWaitingWell : Thread → Type 0
IsWaitingWell t = WaitsWell t.at t.state

-- No job arrives and nothing is resumed between the look at the queues and the clearing of the event.
abbrev pub Calm : Event → Thread → Type 0
Calm (processing _) t = ¬ (t.at ≡ at_clear)
Calm resuming t = ¬ (t.at ≡ at_clear)
Calm _ t = Unit

-- The event is set: the thread goes on wherever it is, except when it is about to clear the event.
set-WaitsWell :
    (a : At) (p : PostProcessor) → ¬ (a ≡ at_clear) → p.work_available ≡ true → WaitsWell a p
set-WaitsWell at_head p n e = λ f. absurd (both e f)
set-WaitsWell at_wait p n e = λ f. absurd (both e f)
set-WaitsWell awake p n e = e
set-WaitsWell at_clear p n e = absurd (n refl)
set-WaitsWell (at_work _) p n e = e
set-WaitsWell ended p n e = tt

-- What `WaitsWell` reads.
record Same (p q : PostProcessor) : Type 0 where
  fast : q.fast_queue ≡ p.fast_queue
  slow : q.slow_queue ≡ p.slow_queue
  event : q.work_available ≡ p.work_available
  paused : q.is_paused ≡ p.is_paused
  stopped : q.stopped ≡ p.stopped

Same-WaitsWell : (a : At) (p q : PostProcessor) → Same p q → WaitsWell a p → WaitsWell a q
Same-WaitsWell a p q s h = cases a h
  where
    no_work : NoWork p → NoWork q
    no_work (inl (f, s')) = inl (s.fast ∙ f, s.slow ∙ s')
    no_work (inr e) = inr (s.paused ∙ e)

    cases : (a : At) → WaitsWell a p → WaitsWell a q
    cases at_head h = λ e. no_work (h (sym s.event ∙ e))
    cases at_wait h = λ e. let (n, f) = h (sym s.event ∙ e) in (no_work n, s.stopped ∙ f)
    cases awake h = s.event ∙ h
    cases at_clear h = no_work h
    cases (at_work _) h = s.event ∙ h
    cases ended h = tt

same : (p q : PostProcessor) → q ≡ p → Same p q
same p q e = record {
  fast = ap (λ (r : PostProcessor). r.fast_queue) e;
  slow = ap (λ (r : PostProcessor). r.slow_queue) e;
  event = ap (λ (r : PostProcessor). r.work_available) e;
  paused = ap (λ (r : PostProcessor). r.is_paused) e;
  stopped = ap (λ (r : PostProcessor). r.stopped) e;
}

delete-Same :
    (nzo_id : ℕ) (del_files : Bool) (p : PostProcessor) → Same p (delete nzo_id del_files p)
unfolding delete delete_found delete_job remove
delete-Same nzo_id del_files p = found (find_job nzo_id p.jobs p.history_queue)
  where
    kind : (j : ℕ) (d : Deletion) → Same p (delete_job del_files j d p)
    kind j after_processing = record {
      fast = refl;
      slow = refl;
      event = refl;
      paused = refl;
      stopped = refl;
    }
    kind j at_once = record {
      fast = refl;
      slow = refl;
      event = refl;
      paused = refl;
      stopped = refl;
    }
    kind j not_at_all = record {
      fast = refl;
      slow = refl;
      event = refl;
      paused = refl;
      stopped = refl;
    }

    found : (o : Option ℕ) → Same p (delete_found del_files o p)
    found none = same p p refl
    found (some j) = kind j (deletion (p.jobs j).status)

cancel-Same : (nzo_ids : List ℕ) (p : PostProcessor) → Same p (cancel_pp nzo_ids p).1
unfolding cancel_pp
cancel-Same nzo_ids p = first p.history_queue
  where
    first : (l : List ℕ) → Same p (cancel_from nzo_ids l p).1
    first [] = same p p refl
    first (j ∷ _) =
        if_ind (λ (r : Option Bool × PostProcessor). Same p r.1)
          (contains (p.jobs j).nzo_id nzo_ids)
          (λ _.
            if_ind (Same p) (p.jobs j).pp_active
              (λ _. record {
                fast = refl;
                slow = refl;
                event = refl;
                paused = refl;
                stopped = refl;
              })
              (λ _. record {
                fast = refl;
                slow = refl;
                event = refl;
                paused = refl;
                stopped = refl;
              }))
          (λ _. same p p refl)

process-event : (j : ℕ) (p : PostProcessor) → (process j p).work_available ≡ true
unfolding process
process-event j p = refl

-- Nothing was taken from empty queues only, and the event stays.
abbrev Took : PostProcessor → Option ℕ × PostProcessor → Type 0
Took p (none, q) = (q.fast_queue ≡ []) × (q.slow_queue ≡ []) × (q.work_available ≡ p.work_available)
Took p (some _, q) = q.work_available ≡ p.work_available

take_next-Took : (p : PostProcessor) → Took p (take_next p)
unfolding take_next
take_next-Took p =
    if_ind (Took p) (leb max_fast_job_count p.fast_job_count && not (is_nil p.slow_queue))
      (λ e. some_slow p.slow_queue (waiting e)) (λ _. fast p.fast_queue p.slow_queue refl refl)
  where
    waiting :
        (leb max_fast_job_count p.fast_job_count && not (is_nil p.slow_queue)) ≡ true
        → not (is_nil p.slow_queue) ≡ true
    waiting e = ground arith

    some_slow : (l : List ℕ) → not (is_nil l) ≡ true → Took p (take_slow l p)
    some_slow [] e = absurd (cc)
    some_slow (j ∷ rest) e = refl

    fast : (f s : List ℕ) → p.fast_queue ≡ f → p.slow_queue ≡ s → Took p (take_fast f p)
    fast [] s e e' = subst (λ l. Took p (take_slow l p)) (sym e') (slow s e')
      where
        slow : (s : List ℕ) → p.slow_queue ≡ s → Took p (take_slow s p)
        slow [] e' = (e, e', refl)
        slow (j ∷ rest) e' = refl
    fast (j ∷ rest) s e e' = refl

take_job-IsWaitingWell :
    (w : World) (t : Thread) (r : Option ℕ × PostProcessor)
    → t.state.work_available ≡ true
    → Took t.state r
    → IsWaitingWell (take_job w t r)
unfolding take_job start_job no_job
take_job-IsWaitingWell w t (none, p) e (f, s, _) =
    if_ind IsWaitingWell (t.check_eoq && is_nil p.fast_queue && is_nil p.slow_queue)
      (λ _. inl (f, s)) (λ _. inl (f, s))
take_job-IsWaitingWell w t (some j, p) e k =
    if_ind IsWaitingWell (p.jobs j).work_name (λ _. k ∙ e) (λ _ f. absurd (both (k ∙ e) f))

finish_job-event :
    (w : World) (j : ℕ) (t : Thread)
    → (finish_job w j t).state.work_available ≡ t.state.work_available
unfolding finish_job remove
finish_job-event w j t =
    if_ind (λ (q : PostProcessor). q.work_available ≡ t.state.work_available)
      ((set_job j (w.process_job j) t.state).jobs j).to_be_removed (λ _. refl) (λ _. refl)

advance-IsWaitingWell :
    (w : World) (a : At) (t : Thread)
    → t.at ≡ a
    → WaitsWell a t.state
    → IsWaitingWell (advance_at w a t)
unfolding advance_at
advance-IsWaitingWell w at_head t e h =
    if_ind IsWaitingWell t.state.stopped (λ _. tt) (λ on f. (h f, on))
advance-IsWaitingWell w at_wait t e h =
    if_ind IsWaitingWell t.state.work_available (λ set. set)
      (λ _. subst (λ a. WaitsWell a t.state) (sym e) h)
advance-IsWaitingWell w awake t e h =
    if_ind IsWaitingWell t.state.stopped (λ _. tt)
      (λ _.
        if_ind IsWaitingWell t.state.is_paused (λ p. inr p)
          (λ _. take_job-IsWaitingWell w t (take_next t.state) h (take_next-Took t.state)))
advance-IsWaitingWell w at_clear t e h = λ _. h
advance-IsWaitingWell w ended t e h = subst (λ a. WaitsWell a t.state) (sym e) h
advance-IsWaitingWell w (at_work j) t e h = λ f. absurd (both (finish_job-event w j t ∙ h) f)

happen-IsWaitingWell :
    (w : World) (e : Event) (t : Thread) → Calm e t → IsWaitingWell t → IsWaitingWell (happen w e t)
unfolding happen advance stop pause resume
happen-IsWaitingWell w step t _ h = advance-IsWaitingWell w t.at t refl h
happen-IsWaitingWell w stopping t _ h = stopped t.at h
  where
    stopped : (a : At) → WaitsWell a t.state → WaitsWell a (stop t.state)
    stopped at_head h = λ f. absurd (both refl f)
    stopped at_wait h = λ f. absurd (both refl f)
    stopped awake h = refl
    stopped at_clear h = h
    stopped (at_work _) h = refl
    stopped ended h = tt
happen-IsWaitingWell w pausing t _ h = paused t.at h
  where
    paused : (a : At) → WaitsWell a t.state → WaitsWell a (pause t.state)
    paused at_head h = λ f. inr refl
    paused at_wait h = λ f. (inr refl, (h f).1)
    paused awake h = h
    paused at_clear h = inr refl
    paused (at_work _) h = h
    paused ended h = tt
happen-IsWaitingWell w resuming t calm h = set-WaitsWell t.at (resume t.state) calm refl
happen-IsWaitingWell w (processing j) t calm h =
    set-WaitsWell t.at (process j t.state) calm (process-event j t.state)
happen-IsWaitingWell w (deleting nzo_id del_files) t _ h =
    Same-WaitsWell t.at t.state (delete nzo_id del_files t.state)
      (delete-Same nzo_id del_files t.state) h
happen-IsWaitingWell w (canceling nzo_ids) t _ h =
    Same-WaitsWell t.at t.state (cancel_pp nzo_ids t.state).1 (cancel-Same nzo_ids t.state) h

-- When no job arrives and nothing is resumed just before the event is cleared, a thread that waits
-- for the event while it is not set has nothing to do: both queues are empty or it is paused; and it
-- was not stopped.
pub Reach-IsWaitingWell :
    (w : World) (t u : Thread) → Reach w Calm t u → IsWaitingWell t → IsWaitingWell u
Reach-IsWaitingWell w t u here h = h
Reach-IsWaitingWell w t u (next e r calm) h =
    happen-IsWaitingWell w e _ calm (Reach-IsWaitingWell w t _ r h)

abbrev pub clearing : PostProcessor → Bool → Thread
clearing p check_eoq = record { state = p; at = at_clear; check_eoq = check_eoq }

-- The thread waits, the event is not set, and no further step of the thread changes that.
pub record IsAsleep (w : World) (t : Thread) : Type 0 where
  pub waits : t.at ≡ at_wait
  pub event : t.state.work_available ≡ false
  pub stays : happen w step t ≡ t

clearing-IsAsleep :
    (w : World) (p : PostProcessor) (check_eoq : Bool)
    → p.stopped ≡ false
    → IsAsleep w (happen w step (happen w step (clearing p check_eoq)))
unfolding happen advance advance_at
clearing-IsAsleep w p check_eoq on =
    if_ind (IsAsleep w) p.stopped (λ off. absurd (both off on))
      (λ _. record { waits = refl; event = refl; stays = refl })

process-queued :
    (j : ℕ) (p : PostProcessor)
    → ((process j p).stopped ≡ p.stopped)
      × ((contains j (process j p).fast_queue || contains j (process j p).slow_queue) ≡ true)
unfolding process
process-queued j p =
    let q = enlist j (set_job j (λ nzo. record nzo { status = queued }) p) in
    if_ind
      (λ (r : PostProcessor).
        (r.stopped ≡ p.stopped) × ((contains j r.fast_queue || contains j r.slow_queue) ≡ true))
      (is_fast (q.jobs j).direct_unpacker)
      (λ _. (refl, in_fast (contains-append j p.fast_queue (j ∷ []))))
      (λ _. (refl, in_slow (contains-append j p.slow_queue (j ∷ []))))
  where
    in_fast :
        contains j (p.fast_queue ++ j ∷ []) ≡ (contains j p.fast_queue || ((j == j) || false))
        → (contains j (p.fast_queue ++ j ∷ []) || contains j p.slow_queue) ≡ true
    in_fast e = ground (arith, ==_refl j)

    in_slow :
        contains j (p.slow_queue ++ j ∷ []) ≡ (contains j p.slow_queue || ((j == j) || false))
        → (contains j p.fast_queue || contains j (p.slow_queue ++ j ∷ [])) ≡ true
    in_slow e = ground (arith, ==_refl j)

-- A job that arrives while the thread is about to clear the event is queued and not seen: after two
-- steps a thread that was not stopped waits without the event, and its own steps do not change that.
pub processing-IsAsleep :
    (w : World) (p : PostProcessor) (check_eoq : Bool) (j : ℕ)
    → p.stopped ≡ false
    → IsAsleep w (happen w step (happen w step (happen w (processing j) (clearing p check_eoq))))
      × ((contains j (process j p).fast_queue || contains j (process j p).slow_queue) ≡ true)
unfolding happen
processing-IsAsleep w p check_eoq j on =
    let (keeps, there) = process-queued j p in
    (clearing-IsAsleep w (process j p) check_eoq (keeps ∙ on), there)
