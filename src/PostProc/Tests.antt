-- ===== src/PostProc/Tests.antt =====
-- sabnzbd/postproc.py: a small post-processor, and the theorems of the post-processor at work on it.
use sabnzbd.Prelude.{
  ℕ, ◌+◌, ◌%◌, ◌≡◌, refl, true, false, ◌&&◌, ◌||◌, ◌==◌, if◌then◌else◌, some, none, [], ◌∷◌,
  contains, arith,
}
use sabnzbd.Job.{queued, completed, failed}
use sabnzbd.PostProc.{Nzo, PostProcessor, process}
use sabnzbd.PostProc.Loop.{World, Thread, at_head, step, processing, deleting, happen, here, next}
use sabnzbd.PostProc.Fair.{arrive, take, taken, is_taken, taken-waiting}
use sabnzbd.PostProc.Listed.{IsInOrder, Reach-IsInOrder}
use sabnzbd.PostProc.Awake.{
  IsWaitingWell, Calm, IsAsleep, clearing, Reach-IsWaitingWell, processing-IsAsleep,
}
use sabnzbd.PostProc.Job
use sabnzbd.PostProc.Job.{Tools, Settings, Outcome, process_job}
use sabnzbd.PostProc.Job.Fine.{is_fine}
use sabnzbd.PostProc.Job.Verdict.{process_job-is_fine}

-- Jobs with an even number were unpacked during the download.
abbrev some_job : ℕ → Nzo
some_job j = record {
  nzo_id = j + 100;
  status = queued;
  work_name = true;
  final_name = j ∷ [];
  cat = 1;
  download_path = j ∷ [];
  direct_unpacker =
      if j % 2 == 0 then some (record { success_sets = true; killed = true }) else none;
  pp_active = false;
  to_be_removed = false;
}

abbrev one_job : PostProcessor
one_job = record {
  history_queue = 1 ∷ [];
  fast_queue = [];
  slow_queue = 1 ∷ [];
  work_available = true;
  fast_job_count = 2;
  stopped = false;
  busy = false;
  is_paused = false;
  jobs = some_job;
  saved = 1 ∷ [];
  effects = [];
}

taken-waiting_example :
    is_taken 1 (taken (arrive 2 ∷ take ∷ arrive 4 ∷ arrive 6 ∷ take ∷ []) one_job) ≡ true
taken-waiting_example =
    taken-waiting (arrive 2 ∷ take ∷ arrive 4 ∷ arrive 6 ∷ take ∷ []) 1 [] one_job refl
      (omega arith) (omega arith)

abbrev world : World
world = record { process_job = λ _ nzo. nzo; pause_on_post_processing = true }

abbrev one_thread : Thread
one_thread = record { state = one_job; at = at_head; check_eoq = false }

one_thread-IsInOrder : IsInOrder one_thread
one_thread-IsInOrder = record {
  once = (refl, tt);
  fast_once = tt;
  slow_once = (refl, tt);
  apart = λ j h. absurd (cc);
  idle = λ j h. absurd (cc);
  listed = λ j h _. ground (arith, h);
  named = λ j _. refl;
  pending = λ j h. ground (arith, h);
  saved = refl;
}

Reach-IsInOrder_example :
    IsInOrder (
      happen world (deleting 101 true) (happen world (processing 2) (happen world step one_thread)))
unfolding happen
Reach-IsInOrder_example =
    Reach-IsInOrder world one_thread
      (happen world (deleting 101 true)
        (happen world (processing 2) (happen world step one_thread)))
      (next (deleting 101 true) (next (processing 2) (next step here tt) (refl, refl)) tt)
      one_thread-IsInOrder

waits_now : Calm (processing 2) (happen world step one_thread)
unfolding happen
waits_now h = absurd (cc)

Reach-IsWaitingWell_example :
    IsWaitingWell (happen world (processing 2) (happen world step one_thread))
Reach-IsWaitingWell_example =
    Reach-IsWaitingWell world one_thread
      (happen world (processing 2) (happen world step one_thread))
      (next (processing 2) (next step here tt) waits_now) (λ h. absurd (cc))

abbrev idle_job : PostProcessor
idle_job = record one_job { history_queue = []; slow_queue = []; saved = [] }

processing-IsAsleep_example :
    IsAsleep world (
      happen world step (happen world step (happen world (processing 3) (clearing idle_job false))))
    × ((contains 3 (process 3 idle_job).fast_queue || contains 3 (process 3 idle_job).slow_queue)
        ≡ true)
processing-IsAsleep_example = processing-IsAsleep world idle_job false 3 refl

-- The script fails the job.
abbrev some_tools : Tools
some_tools = record {
  count_files = some 5;
  parring = some (false, false);
  sanitize_files = some tt;
  prepare_extraction_path = some tt;
  unpacker = some 0;
  moves = some (true ∷ true ∷ []);
  process_nzb_only_download = some false;
  rename_and_collapse_folder = some tt;
  one_folder = false;
  sorter_active = true;
  newfiles = true;
  sorter_rename = some true;
  deobfuscate = some tt;
  script = some (some 7);
  handle_duplicate_alternatives = some tt;
}

abbrev some_nzo : Job.Nzo
some_nzo = record {
  repair = true;
  unpack = true;
  delete = false;
  precheck = false;
  fail_msg = false;
}

abbrev some_settings : Settings
some_settings = record { safe_postproc = true; script_can_fail = true; folder_rename = true }

process_job-is_fine_example :
    (failed ≡ (if is_fine some_settings some_tools some_nzo && true then completed else failed))
    × (false ≡ is_fine some_settings some_tools some_nzo)
unfolding process_job Job.finish
process_job-is_fine_example =
    process_job-is_fine some_settings some_tools true some_nzo
      (record { status = failed; delete_all_data = false; tries_alternative = false }) refl
