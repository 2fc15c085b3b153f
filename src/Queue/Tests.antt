-- ===== src/Queue/Tests.antt =====
-- sabnzbd/nzbqueue.py: small queues, and the theorems of the queue at work on them.
use sabnzbd.Prelude.{
  ℕ, ◌≡◌, ◌≢◌, refl, true, false, ◌&&◌, none, some, [], ◌∷◌, contains, keep, pos, arith,
}
use sabnzbd.Job.{
  Nzo, queued, paused, high_priority, normal_priority, low_priority, force_priority,
  smart_duplicate_alternative, valid_priority,
}
use sabnzbd.Queue.State.{Queue, IsValid, update, priority_of}
use sabnzbd.Queue.Place.Position.{Placed}
use sabnzbd.Queue.Sort.{size, name, remaining_part, sort_queue}
use sabnzbd.Queue.Sort.Order.{Chain, InQueueOrder, sort_queue-Chain}
use sabnzbd.Queue.Save.{save}
use sabnzbd.Queue.Keeps.{sort_queue-IsValid}
use sabnzbd.Queue.Add.{Surroundings, add}
use sabnzbd.Queue.Adding.{add-IsValid, add-Placed}
use sabnzbd.Queue.Remove.{remove, remove-IsGone, IsGone}
use sabnzbd.Queue.SetPriority.{set_priority_one, set_priority}
use sabnzbd.Queue.SetPriority.Many.{set_priority-IsValid}
use sabnzbd.Queue.SetPriority.Order.{IsMoved, set_priority_one-IsMoved}
use sabnzbd.Queue.Switch.{index, switch}
use sabnzbd.Queue.Switch.Result.{IsSwitched, switch-IsSwitched}
use sabnzbd.Queue.Reads.{is_forced, has_forced_jobs, any_job, has_forced_jobs-eq-any}
use sabnzbd.Queue.Info.{Filters, matches, queue_info}
use sabnzbd.Queue.Info.Page.{slice, queue_info-page}
use sabnzbd.Queue.Duplicates.{
  DupeSettings, is_alternative, is_duplicate_of, handle_duplicate_alternatives,
}
use sabnzbd.Queue.Duplicates.Discard.{
  handle_duplicate_alternatives-IsValid, handle_duplicate_alternatives-discard,
}
use sabnzbd.Queue.Bulk.{remove_multiple, IsCleared, remove_multiple-IsCleared}

abbrev pub linux : Nzo
linux = record {
  priority = normal_priority;
  status = queued;
  removed_from_queue = false;
  pp_active = false;
  futuretype = false;
  precheck = false;
  reuse = false;
  fail_msg = [];
  files = 11 ∷ [];
  finished_files = [];
  try_list = 5 ∷ [];
  bytes = pos 700;
  bytes_tried = pos 100;
  final_name = 76 ∷ 105 ∷ [];
  avg_date = pos 1000;
  cat = 116 ∷ 118 ∷ [];
  md5sum = some 77;
  duplicate_key = none;
  duplicate_mark = none;
  encrypted = pos 0;
  oversized = false;
  incomplete = false;
  unwanted_ext = 0;
}

abbrev urgent : Nzo
urgent = record linux {
  priority = force_priority;
  bytes = pos 300;
  md5sum = some 78;
  final_name = 85 ∷ [];
}

abbrev copy : Nzo
copy = record linux { status = paused; duplicate_mark = some smart_duplicate_alternative }

abbrev background : Nzo
background = record linux {
  priority = low_priority;
  final_name = 66 ∷ [];
  md5sum = some 79;
  cat = [];
}

abbrev some_jobs : ℕ → Nzo
some_jobs = update 1 urgent (update 3 copy (update 4 background (λ _. linux)))

-- A forced job, two normal ones of which the second is a duplicate of the first, and a low one.
abbrev four_jobs : Queue
four_jobs = record {
  top_only = false;
  nzo_list = 1 ∷ 2 ∷ 3 ∷ 4 ∷ [];
  nzo_table = 1 ∷ 2 ∷ 3 ∷ 4 ∷ [];
  jobs = some_jobs;
  effects = [];
}

four_jobs-IsValid : IsValid four_jobs
four_jobs-IsValid = record {
  list_distinct = (refl, (refl, (refl, (refl, tt))));
  table_distinct = (refl, (refl, (refl, (refl, tt))));
  same_jobs = λ id. refl;
  ordered = (
    (omega arith, (omega arith, (omega arith, tt))),
    ((omega arith, (omega arith, tt)), ((omega arith, tt), (tt, tt))),
  );
}

abbrev calm : Surroundings
calm = record {
  analyse = λ _. false;
  has_nzb = λ _. false;
  process_single_nzb = λ _ q. ([], q);
  auto_sort = none;
}

-- A new job of high priority, and one whose files are all done.
abbrev new_job : Nzo
new_job = record linux { priority = high_priority; final_name = 78 ∷ [] }

add-IsValid_example : IsValid (add calm 9 new_job true false four_jobs)
add-IsValid_example = add-IsValid calm 9 new_job true false four_jobs four_jobs-IsValid refl

add-Placed_example :
    Placed
      (priority_of (add calm 9 new_job true false four_jobs).jobs)
      high_priority
      9
      four_jobs.nzo_list
      (add calm 9 new_job true false four_jobs).nzo_list
add-Placed_example = add-Placed calm 9 new_job true false four_jobs four_jobs-IsValid refl refl refl

remove-IsGone_example :
    ((remove 2 true false four_jobs).0 ≡ true)
    × IsGone 2 four_jobs (remove 2 true false four_jobs).1
remove-IsGone_example = remove-IsGone 2 true false four_jobs four_jobs-IsValid refl

set_priority_one-IsMoved_example : IsMoved 4 (set_priority_one calm 4 high_priority four_jobs)
unfolding valid_priority
set_priority_one-IsMoved_example =
    set_priority_one-IsMoved calm 4 high_priority four_jobs four_jobs-IsValid refl refl refl

set_priority-IsValid_example :
    IsValid (set_priority calm (4 ∷ 8 ∷ 2 ∷ []) force_priority four_jobs).1
unfolding valid_priority
set_priority-IsValid_example =
    set_priority-IsValid calm (4 ∷ 8 ∷ 2 ∷ []) force_priority four_jobs four_jobs-IsValid refl refl

switch-IsSwitched_example : IsSwitched 4 (switch 4 (index (pos 1)) four_jobs)
switch-IsSwitched_example = switch-IsSwitched four_jobs 4 (index (pos 1)) four_jobs-IsValid tt

has_forced_jobs-eq-any_example :
    has_forced_jobs four_jobs ≡ any_job is_forced four_jobs.jobs four_jobs.nzo_list
has_forced_jobs-eq-any_example = has_forced_jobs-eq-any four_jobs four_jobs-IsValid

sort_queue-IsValid_example : IsValid (sort_queue (some size) true four_jobs)
sort_queue-IsValid_example = sort_queue-IsValid (some size) true four_jobs four_jobs-IsValid

by_name : name ≢ remaining_part
by_name e = absurd (cc)

sort_queue-Chain_example :
    Chain (InQueueOrder four_jobs.jobs name false) (sort_queue (some name) false four_jobs).nzo_list
sort_queue-Chain_example = sort_queue-Chain four_jobs name false by_name

abbrev by_cat : Filters
by_cat = record {
  search = [];
  categories = (116 ∷ 118 ∷ []) ∷ [];
  priorities = [];
  statuses = [];
  nzo_ids = [];
}

queue_info-page_example :
    (queue_info (λ _. 0) by_cat 1 2 four_jobs).page
    ≡ slice 1 2 (keep (matches (λ _. 0) by_cat four_jobs.jobs) four_jobs.nzo_list)
queue_info-page_example = queue_info-page (λ _. 0) by_cat 1 2 four_jobs

abbrev discard : DupeSettings
discard = record { no_dupes = 1; no_smart_dupes = 1 }

handle_duplicate_alternatives-IsValid_example :
    IsValid (handle_duplicate_alternatives discard linux true four_jobs)
handle_duplicate_alternatives-IsValid_example =
    handle_duplicate_alternatives-IsValid discard linux true four_jobs four_jobs-IsValid

handle_duplicate_alternatives-discard_example :
    (is_alternative ((handle_duplicate_alternatives discard linux true four_jobs).jobs 4)
      && is_duplicate_of linux
          ((handle_duplicate_alternatives discard linux true four_jobs).jobs 4))
    ≡ false
unfolding handle_duplicate_alternatives save
handle_duplicate_alternatives-discard_example =
    handle_duplicate_alternatives-discard discard linux four_jobs 4 four_jobs-IsValid refl refl
      still_there
  where
    still_there :
        contains 4 (handle_duplicate_alternatives discard linux true four_jobs).nzo_list ≡ true
    still_there = refl

remove_multiple-IsCleared_example :
    IsCleared (remove_multiple discard true true (2 ∷ 7 ∷ 4 ∷ []) four_jobs)
remove_multiple-IsCleared_example =
    remove_multiple-IsCleared discard true true (2 ∷ 7 ∷ 4 ∷ []) four_jobs four_jobs-IsValid
