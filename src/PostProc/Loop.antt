-- ===== src/PostProc/Loop.antt =====
-- sabnzbd/postproc.py: the thread of the post-processor, `PostProcessor.run`, one step at a time, and
-- the calls of the other threads between the steps. `process_job` is a parameter here.
use sabnzbd.Prelude.{ℕ, Bool, true, false, ◌&&◌, if◌then◌else◌, Option, none, some, List, [], ◌∷◌}
use sabnzbd.Job.{is_nil}
use sabnzbd.PostProc.{
  Nzo, PostProcessor, handle_empty_queue, wait_for_postproc, resume_from_postproc, purge_data,
  remove_from_history, set_job, emit, remove, process, delete, stop, pause, resume, cancel_pp,
  take_next,
}

pub record World : Type 0 where
  pub process_job : ℕ → Nzo → Nzo
  pub pause_on_post_processing : Bool

-- Where the thread is: at the head of the loop, at the wait for work, just awake, about to clear the
-- event, at work on a job, or out of the loop.
pub data At : Type 0 where
  at_head at_wait awake at_clear ended : At
  at_work : ℕ → At

pub record Thread : Type 0 where
  pub state : PostProcessor
  pub at : At
  pub check_eoq : Bool

abbrev pub look_again : Thread → Thread
look_again t = record t { at = at_head; check_eoq = true }

-- The job that was taken is started, when it is not deleted.
unfoldable pub start_job : World → ℕ → Thread → Thread
start_job w j t =
    if (t.state.jobs j).work_name
    then record t {
      state =
          record (emit (if w.pause_on_post_processing then wait_for_postproc ∷ [] else [])
            (set_job j (λ nzo. record nzo { pp_active = true }) t.state)) { busy = true };
      at = at_work j;
    }
    else look_again t

-- No fast or slow job.
unfoldable pub no_job : Thread → Thread
no_job t =
    if t.check_eoq && is_nil t.state.fast_queue && is_nil t.state.slow_queue
    then record t {
      state = emit (handle_empty_queue ∷ []) t.state;
      at = at_clear;
      check_eoq = false;
    }
    else record t { at = at_clear }

unfoldable pub take_job : World → Thread → Option ℕ × PostProcessor → Thread
unfolding start_job no_job
take_job w t (none, p) = no_job (record t { state = p })
take_job w t (some j, p) = start_job w j (record t { state = p })

unfoldable pub finish_job : World → ℕ → Thread → Thread
unfolding remove
finish_job w j t =
    let p = set_job j (w.process_job j) t.state in
    let p =
      if (p.jobs j).to_be_removed
      then emit (remove_from_history j ∷ purge_data j true ∷ []) p
      else p in
    let p = remove j (set_job j (λ nzo. record nzo { pp_active = false }) p) in
    look_again (record t { state = emit (resume_from_postproc ∷ []) p })

unfoldable pub advance_at : World → At → Thread → Thread
unfolding take_next take_job finish_job
advance_at w at_head t =
    if t.state.stopped
    then record t { at = ended }
    else record t { state = record t.state { busy = false }; at = at_wait }
advance_at w at_wait t = if t.state.work_available then record t { at = awake } else t
advance_at w awake t =
    if t.state.stopped
    then record t { at = ended }
    else if t.state.is_paused
    then record t { at = at_clear }
    else take_job w t (take_next t.state)
advance_at w at_clear t = record t {
  state = record t.state { work_available = false };
  at = at_head;
}
advance_at w (at_work j) t = finish_job w j t
advance_at w ended t = t

-- A step of the thread; at the wait it stays where it is until the event is set.
unfoldable pub advance : World → Thread → Thread
unfolding advance_at
advance w t = advance_at w t.at t

-- What happens next: a step of the thread, or a call from another one.
pub data Event : Type 0 where
  step stopping pausing resuming : Event
  processing : ℕ → Event
  deleting : ℕ → Bool → Event
  canceling : List ℕ → Event

unfoldable pub happen : World → Event → Thread → Thread
unfolding advance
happen w step t = advance w t
happen w stopping t = record t { state = stop t.state }
happen w pausing t = record t { state = pause t.state }
happen w resuming t = record t { state = resume t.state }
happen w (processing j) t = record t { state = process j t.state }
happen w (deleting nzo_id del_files) t = record t { state = delete nzo_id del_files t.state }
happen w (canceling nzo_ids) t = record t { state = (cancel_pp nzo_ids t.state).1 }

-- The threads that events of a kind lead to.
pub data Reach (w : World) (P : Event → Thread → Type 0) (t : Thread) : Thread → Type 0 where
  here : Reach w P t t
  next : {u : Thread} (e : Event) → Reach w P t u → P e u → Reach w P t (happen w e u)
