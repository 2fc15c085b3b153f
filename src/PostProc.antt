-- ===== src/PostProc.antt =====
-- sabnzbd/postproc.py: the queue of the post-processor and the loop of its thread. A job is a
-- reference, and `jobs` says what the post-processor reads and writes of each. The thread moves in
-- steps, between which the other threads call the operations: it wakes up, looks at its two queues,
-- clears the event when there was nothing to do, or processes the job it took.
pub mod Loop
pub mod Fair
pub mod Listed
pub mod Awake
pub mod Job
pub mod Parring
pub mod Tests
use sabnzbd.Prelude.{
  ℕ, zero, suc, ◌+◌, Bool, true, false, not, ◌&&◌, ◌||◌, ◌==◌, leb, if◌then◌else◌, Option, none,
  some, List, [], ◌∷◌, ◌++◌, contains, remove_one,
}
use sabnzbd.Job.{Text, Status, queued, failed, completed, downloading, is_nil}

-- The job's `DirectUnpacker`: whether it unpacked sets, and whether it was killed.
pub record DirectUnpacker : Type 0 where
  pub success_sets : Bool
  pub killed : Bool

-- `work_name` is whether the name is not empty.
pub record Nzo : Type 0 where
  pub nzo_id : ℕ
  pub status : Status
  pub work_name : Bool
  pub final_name : Text
  pub cat : ℕ
  pub download_path : Text
  pub direct_unpacker : Option DirectUnpacker
  pub pp_active : Bool
  pub to_be_removed : Bool

-- The calls to the other components.
pub data Effect : Type 0 where
  history_updated handle_empty_queue wait_for_postproc resume_from_postproc kill_process : Effect
  purge_data : ℕ → Bool → Effect
  abort_direct_unpacker : ℕ → Effect
  remove_from_history : ℕ → Effect

-- `saved` is the list in the file of the queue.
pub record PostProcessor : Type 0 where
  pub history_queue : List ℕ
  pub fast_queue : List ℕ
  pub slow_queue : List ℕ
  pub work_available : Bool
  pub fast_job_count : ℕ
  pub stopped : Bool
  pub busy : Bool
  pub is_paused : Bool
  pub jobs : ℕ → Nzo
  pub saved : List ℕ
  pub effects : List Effect

abbrev pub max_fast_job_count : ℕ
max_fast_job_count = 3

abbrev pub set_job : ℕ → (Nzo → Nzo) → PostProcessor → PostProcessor
set_job j f p = record p { jobs = λ i. if i == j then f (p.jobs i) else p.jobs i }

abbrev pub emit : List Effect → PostProcessor → PostProcessor
emit e p = record p { effects = p.effects ++ e }

unfoldable pub save : PostProcessor → PostProcessor
save p = record p { saved = p.history_queue }

-- `remove`: a job that is not in the list is no error.
unfoldable pub remove : ℕ → PostProcessor → PostProcessor
unfolding save
remove j p =
    emit (history_updated ∷ []) (save (record p { history_queue = remove_one j p.history_queue }))

-- `load`: the jobs of the file whose folder is still there.
unfoldable pub load : (ℕ → Bool) → List ℕ → List ℕ
load path_exists [] = []
load path_exists (j ∷ others) =
    let rest = load path_exists others in if path_exists j then j ∷ rest else rest

-- The job is unpacked already, or its unpacker still runs.
abbrev pub is_fast : Option DirectUnpacker → Bool
is_fast none = false
is_fast (some d) = d.success_sets || not d.killed

abbrev pub put : ℕ → PostProcessor → PostProcessor
put j p =
    if is_fast (p.jobs j).direct_unpacker
    then record p { fast_queue = p.fast_queue ++ j ∷ [] }
    else record p { slow_queue = p.slow_queue ++ j ∷ [] }

abbrev pub enlist : ℕ → PostProcessor → PostProcessor
enlist j p = record p {
  history_queue = if contains j p.history_queue then p.history_queue else p.history_queue ++ j ∷ [];
}

unfoldable pub process : ℕ → PostProcessor → PostProcessor
unfolding save
process j p =
    let p' = put j (enlist j (set_job j (λ nzo. record nzo { status = queued }) p)) in
    record (emit (history_updated ∷ []) (save p')) { work_available = true }

-- `__init__` puts the jobs of the file in the queues.
unfoldable pub process_all : List ℕ → PostProcessor → PostProcessor
process_all [] p = p
process_all (j ∷ rest) p = process_all rest (process j p)

abbrev pub find_job : ℕ → (ℕ → Nzo) → List ℕ → Option ℕ
find_job nzo_id jobs [] = none
find_job nzo_id jobs (j ∷ rest) =
    if (jobs j).nzo_id == nzo_id then some j else find_job nzo_id jobs rest

-- What `delete` does with a job depends on its status.
pub data Deletion : Type 0 where
  after_processing at_once not_at_all : Deletion

abbrev pub deletion : Status → Deletion
deletion failed = after_processing
deletion completed = after_processing
deletion downloading = at_once
deletion queued = at_once
deletion _ = not_at_all

unfoldable pub delete_job : Bool → ℕ → Deletion → PostProcessor → PostProcessor
unfolding remove
delete_job del_files j after_processing p = set_job j (λ nzo. record nzo { to_be_removed = true }) p
delete_job del_files j at_once p =
    set_job j (λ nzo. record nzo { work_name = false })
      (emit (purge_data j del_files ∷ []) (remove j p))
delete_job del_files j not_at_all p = p

unfoldable pub delete_found : Bool → Option ℕ → PostProcessor → PostProcessor
unfolding delete_job
delete_found del_files none p = p
delete_found del_files (some j) p = delete_job del_files j (deletion (p.jobs j).status) p

unfoldable pub delete : ℕ → Bool → PostProcessor → PostProcessor
unfolding delete_found
delete nzo_id del_files p = delete_found del_files (find_job nzo_id p.jobs p.history_queue) p

unfoldable pub stop : PostProcessor → PostProcessor
stop p = record p { stopped = true; work_available = true }

unfoldable pub pause : PostProcessor → PostProcessor
pause p = record p { is_paused = true }

unfoldable pub resume : PostProcessor → PostProcessor
resume p = record p { is_paused = false; work_available = true }

abbrev pub cancel_job : ℕ → PostProcessor → PostProcessor
cancel_job j p =
    if (p.jobs j).pp_active
    then emit (abort_direct_unpacker j ∷ kill_process ∷ [])
        (set_job j (λ nzo. record nzo { pp_active = false }) p)
    else emit (abort_direct_unpacker j ∷ []) p

-- The loop of `cancel_pp` returns at the first job of the list.
abbrev pub cancel_from : List ℕ → List ℕ → PostProcessor → Option Bool × PostProcessor
cancel_from nzo_ids [] p = (none, p)
cancel_from nzo_ids (j ∷ _) p =
    if contains (p.jobs j).nzo_id nzo_ids then (some true, cancel_job j p) else (none, p)

unfoldable pub cancel_pp : List ℕ → PostProcessor → Option Bool × PostProcessor
cancel_pp nzo_ids p = cancel_from nzo_ids p.history_queue p

unfoldable pub empty : PostProcessor → Bool
empty p = is_nil p.slow_queue && is_nil p.fast_queue && not p.busy

-- The filters of `get_queue`: the search is a test of names when there is one, and an empty list
-- filters nothing.
pub record Filters : Type 0 where
  pub search : Option (Text → Bool)
  pub categories : List ℕ
  pub statuses : Option (Status → Bool)
  pub nzo_ids : List ℕ

abbrev pub passes {ℓ} : {A : Type ℓ} → Option (A → Bool) → A → Bool
passes none a = true
passes (some f) a = f a

abbrev pub matches : Filters → Nzo → Bool
matches f nzo =
    nzo.work_name
    && passes f.search nzo.final_name
    && (is_nil f.categories || contains nzo.cat f.categories)
    && passes f.statuses nzo.status
    && (is_nil f.nzo_ids || contains nzo.nzo_id f.nzo_ids)

unfoldable pub get_queue : Filters → (ℕ → Nzo) → List ℕ → List ℕ
get_queue f jobs [] = []
get_queue f jobs (j ∷ rest) =
    let others = get_queue f jobs rest in if matches f (jobs j) then j ∷ others else others

unfoldable pub get_path : ℕ → PostProcessor → Option Text
get_path nzo_id p = elim (find_job nzo_id p.jobs p.history_queue) [
  | none ↦ none
  | some j ↦ some (p.jobs j).download_path
]

-- The job that the loop takes. After a few fast jobs a slow one gets its turn.
abbrev pub take_slow : List ℕ → PostProcessor → Option ℕ × PostProcessor
take_slow [] p = (none, p)
take_slow (j ∷ rest) p = (some j, record p { slow_queue = rest; fast_job_count = 0 })

abbrev pub take_fast : List ℕ → PostProcessor → Option ℕ × PostProcessor
take_fast [] p = take_slow p.slow_queue p
take_fast (j ∷ rest) p =
    (some j, record p { fast_queue = rest; fast_job_count = p.fast_job_count + 1 })

unfoldable pub take_next : PostProcessor → Option ℕ × PostProcessor
take_next p =
    if leb max_fast_job_count p.fast_job_count && not (is_nil p.slow_queue)
    then take_slow p.slow_queue p
    else take_fast p.fast_queue p
