-- ===== src/Queue/Save.antt =====
-- sabnzbd/nzbqueue.py: `save`, and sabnzbd/nzb/object.py: `pause`.
use sabnzbd.Prelude.{ℕ, Bool, true, false, not, ◌==◌, if◌then◌else◌, List, [], ◌∷◌, ◌++◌, map, keep}
use sabnzbd.Job.{paused}
use sabnzbd.Queue.State.{Queue, save_queue, save_job, set_job, emit}

-- The argument `save_nzo`: None for all jobs, one job, or False for none of them.
pub data SaveTarget : Type 0 where
  every_job no_job : SaveTarget
  one_job : ℕ → SaveTarget

abbrev saves : SaveTarget → ℕ → Bool
saves every_job id = true
saves no_job id = false
saves (one_job j) id = j == id

abbrev pub listed : Queue → List ℕ
listed q = keep (λ id. not (q.jobs id).removed_from_queue) q.nzo_list

unfoldable pub save : SaveTarget → Queue → Queue
save target q = record q {
  effects =
      (q.effects ++ map save_job (keep (saves target) (listed q))) ++ save_queue (listed q) ∷ [];
}

-- `nzo.pause()`: the paused state of a job of the queue is saved.
unfoldable pub pause_job : ℕ → Queue → Queue
pause_job id q =
    let q' = set_job id (record (q.jobs id) { status = paused }) q in
    if (q.jobs id).removed_from_queue then q' else emit (save_job id) q'
