-- ===== src/Queue/State.antt =====
-- sabnzbd/nzbqueue.py: the state of the queue. Jobs are objects that the list and the table share;
-- a reference to a job is its `nzo_id`, and `jobs` is the store of the objects. What the queue asks
-- of other components is recorded in order.
use sabnzbd.Prelude.{
  ℕ, Bool, ◌==◌, if◌then◌else◌, List, [], ◌∷◌, ◌++◌, ℤ, ltb_ℤ, contains, Distinct, ◌≡◌,
}
use sabnzbd.Prelude.Sorted.{Descending}
use sabnzbd.Job.{Nzo, force_priority, low_priority}

pub data Effect : Type 0 where
  -- The queue file, with the ids that it lists.
  save_queue : List ℕ → Effect
  save_job : ℕ → Effect
  purge_data : ℕ → Bool → Effect
  -- Assembler.process(nzo): the job goes on to post-processing.
  assembler_process : ℕ → Effect
  notify_added : ℕ → Effect
  clear_ready_bytes : List ℕ → Effect
  postproc_process : ℕ → Effect
  disconnect : Effect

pub record Queue : Type 0 where
  pub top_only : Bool
  pub nzo_list : List ℕ
  pub nzo_table : List ℕ
  pub jobs : ℕ → Nzo
  pub effects : List Effect

abbrev pub update : ℕ → Nzo → (ℕ → Nzo) → ℕ → Nzo
update id nzo jobs i = if i == id then nzo else jobs i

abbrev pub set_job : ℕ → Nzo → Queue → Queue
set_job id nzo q = record q { jobs = update id nzo q.jobs }

abbrev pub emit : Effect → Queue → Queue
emit e q = record q { effects = q.effects ++ e ∷ [] }

abbrev pub priority_of : (ℕ → Nzo) → ℕ → ℤ
priority_of jobs id = (jobs id).priority

-- The queue orders jobs by priority, where all from Force upwards count as one, and so do all from
-- Low downwards: those jobs go to the top and to the bottom.
abbrev pub rank : ℤ → ℤ
rank p =
    if ltb_ℤ p low_priority
    then low_priority
    else if ltb_ℤ force_priority p
    then force_priority
    else p

abbrev pub rank_of : (ℕ → Nzo) → ℕ → ℤ
rank_of jobs id = rank (priority_of jobs id)

-- The list holds the jobs of the table, each once, in order of priority.
pub record IsValid (q : Queue) : Type 0 where
  pub list_distinct : Distinct q.nzo_list
  pub table_distinct : Distinct q.nzo_table
  pub same_jobs : (id : ℕ) → contains id q.nzo_list ≡ contains id q.nzo_table
  pub ordered : Descending (rank_of q.jobs) q.nzo_list
