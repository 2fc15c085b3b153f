-- ===== src/Job.antt =====
-- sabnzbd/constants.py and sabnzbd/nzb/object.py: the state of a job (NzbObject) as the queue uses
-- it, and the methods that change its status, its priority and its marks.
use sabnzbd.Prelude.{
  ℕ, Bool, true, false, ◌||◌, Option, none, some, List, ℤ, pos, negsuc, eqb_ℤ, ltb_ℤ, if◌then◌else◌,
  ◌-ℤ◌, [], zero, suc,
}

pub data Status : Type 0 where
  idle completed checking downloading extracting failed fetching grabbing moving paused queued
        quick_check repairing running verifying deleted propagating :
      Status

pub data DuplicateStatus : Type 0 where
  duplicate duplicate_alternative smart_duplicate smart_duplicate_alternative duplicate_ignored :
      DuplicateStatus

abbrev pub repair_priority : ℤ
repair_priority = pos 3

abbrev pub force_priority : ℤ
force_priority = pos 2

abbrev pub high_priority : ℤ
high_priority = pos 1

abbrev pub normal_priority : ℤ
normal_priority = pos 0

abbrev pub low_priority : ℤ
low_priority = negsuc 0

abbrev pub paused_priority : ℤ
paused_priority = negsuc 1

abbrev pub stop_priority : ℤ
stop_priority = negsuc 3

abbrev pub default_priority : ℤ
default_priority = negsuc 99

-- A text is its code points.
abbrev pub Text : Type 0
Text = List ℕ

-- A job refers to its files by their ids; the job itself is referred to by its `nzo_id`.
pub record Nzo : Type 0 where
  pub priority : ℤ
  pub status : Status
  pub removed_from_queue : Bool
  pub pp_active : Bool
  pub futuretype : Bool
  pub precheck : Bool
  pub reuse : Bool
  pub fail_msg : Text
  pub files : List ℕ
  pub finished_files : List ℕ
  pub try_list : List ℕ
  pub bytes : ℤ
  pub bytes_tried : ℤ
  pub final_name : Text
  pub avg_date : ℤ
  pub cat : Text
  pub md5sum : Option ℕ
  pub duplicate_key : Option ℕ
  pub duplicate_mark : Option DuplicateStatus
  pub encrypted : ℤ
  pub oversized : Bool
  pub incomplete : Bool
  pub unwanted_ext : ℕ

abbrev pub is_nil {ℓ} : {A : Type ℓ} → List A → Bool
is_nil [] = true
is_nil _ = false

abbrev pub is_paused : Status → Bool
is_paused paused = true
is_paused _ = false

abbrev pub is_grabbing : Status → Bool
is_grabbing grabbing = true
is_grabbing _ = false

-- `status in (Status.PAUSED, Status.GRABBING)`
abbrev pub is_held : Status → Bool
is_held paused = true
is_held grabbing = true
is_held _ = false

-- `status in (Status.CHECKING, Status.DOWNLOADING, Status.QUEUED)`
abbrev pub is_waiting : Status → Bool
is_waiting checking = true
is_waiting downloading = true
is_waiting queued = true
is_waiting _ = false

-- `status in (Status.COMPLETED, Status.DELETED, Status.FAILED)`
abbrev pub is_final : Status → Bool
is_final completed = true
is_final deleted = true
is_final failed = true
is_final _ = false

-- The property `pp_or_finished`.
unfoldable pub pp_or_finished : Nzo → Bool
pp_or_finished nzo = nzo.pp_active || is_final nzo.status

-- The property `remaining`.
unfoldable pub remaining : Nzo → ℤ
remaining nzo = nzo.bytes -ℤ nzo.bytes_tried

-- `set_priority`, its value converted already: what is no priority becomes the normal one.
unfoldable pub valid_priority : ℤ → Bool
valid_priority value =
    eqb_ℤ value repair_priority
    || eqb_ℤ value force_priority
    || eqb_ℤ value high_priority
    || eqb_ℤ value normal_priority
    || eqb_ℤ value low_priority
    || eqb_ℤ value default_priority
    || eqb_ℤ value paused_priority
    || eqb_ℤ value stop_priority

unfoldable pub set_priority : ℤ → Nzo → Nzo
unfolding valid_priority
set_priority value nzo =
    if valid_priority value
    then record nzo { priority = value }
    else record nzo { priority = normal_priority }

-- `resume`: a resumed job is not paused again for the reason that it was paused for.
abbrev mark_ignored : Option DuplicateStatus → Option DuplicateStatus
mark_ignored none = none
mark_ignored (some _) = some duplicate_ignored

unfoldable pub resume : Nzo → Nzo
resume nzo = record nzo {
  status = queued;
  encrypted = if ltb_ℤ (pos 0) nzo.encrypted then pos 2 else nzo.encrypted;
  oversized = false;
  incomplete = false;
  unwanted_ext = elim nzo.unwanted_ext [ zero ↦ 0 | suc _ ↦ 2 ];
  duplicate_mark = mark_ignored nzo.duplicate_mark;
}
