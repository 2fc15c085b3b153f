-- ===== src/Queue/Control.antt =====
-- sabnzbd/nzbqueue.py: pausing and resuming jobs, one by one, by priority and by category.
pub mod Status
use sabnzbd.Prelude.{
  ℕ, ◌≡◌, refl, ap, Bool, true, false, not, ◌&&◌, ◌||◌, ◌==◌, if◌then◌else◌, if_ind, List, [], ◌∷◌,
  ◌++◌, contains, ℤ, eqb_ℤ, arith, Distinct, Bool-cases, inl, inr,
}
use sabnzbd.Job
use sabnzbd.Job.{Nzo, Text, queued}
use sabnzbd.Queue.State.{Queue, IsValid, set_job}
use sabnzbd.Queue.Save.{pause_job}
use sabnzbd.Queue.Info.{eq_text}
use sabnzbd.Queue.Keeps.{
  SameOrder, SameOrder-refl, SameOrder-trans, SameOrder-IsValid, set_job-SameOrder,
  pause_job-SameOrder,
}

-- `pause_nzo` and `resume_nzo`, with the ids that were handled.
unfoldable pub pause_nzo : ℕ → Queue → List ℕ × Queue
unfolding pause_job
pause_nzo id q = if contains id q.nzo_table then (id ∷ [], pause_job id q) else ([], q)

unfoldable pub resume_nzo : ℕ → Queue → List ℕ × Queue
unfolding Job.resume
resume_nzo id q =
    if contains id q.nzo_table then (id ∷ [], set_job id (Job.resume (q.jobs id)) q) else ([], q)

-- The loops of `pause_multiple_nzo` and `resume_multiple_nzo`: all ids count as handled.
pub pause_multiple_nzo : List ℕ → Queue → List ℕ × Queue
unfolding pause_nzo
pause_multiple_nzo [] q = ([], q)
pause_multiple_nzo (id ∷ ids) q =
    let (handled, q') = pause_multiple_nzo ids (pause_nzo id q).1 in (id ∷ handled, q')

pub resume_multiple_nzo : List ℕ → Queue → List ℕ × Queue
unfolding resume_nzo
resume_multiple_nzo [] q = ([], q)
resume_multiple_nzo (id ∷ ids) q =
    let (handled, q') = resume_multiple_nzo ids (resume_nzo id q).1 in (id ∷ handled, q')

-- `for nzo in self.__nzo_list: if test: act`
for_jobs : (Nzo → Bool) → (ℕ → Queue → Queue) → List ℕ → Queue → Queue
for_jobs test act [] q = q
for_jobs test act (x ∷ xs) q = for_jobs test act xs (if test (q.jobs x) then act x q else q)

-- The jobs go back to the queued state without a reset of their marks.
abbrev requeue : ℕ → Queue → Queue
requeue id q = set_job id (record (q.jobs id) { status = queued }) q

pub pause_on_prio : ℤ → Queue → Queue
unfolding for_jobs pause_job
pause_on_prio priority q = for_jobs (λ nzo. eqb_ℤ nzo.priority priority) pause_job q.nzo_list q

pub resume_on_prio : ℤ → Queue → Queue
unfolding for_jobs
resume_on_prio priority q = for_jobs (λ nzo. eqb_ℤ nzo.priority priority) requeue q.nzo_list q

pub pause_on_cat : Text → Queue → Queue
unfolding for_jobs pause_job
pause_on_cat cat q = for_jobs (λ nzo. eq_text nzo.cat cat) pause_job q.nzo_list q

pub resume_on_cat : Text → Queue → Queue
unfolding for_jobs
resume_on_cat cat q = for_jobs (λ nzo. eq_text nzo.cat cat) requeue q.nzo_list q
