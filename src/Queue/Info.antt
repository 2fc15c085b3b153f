-- ===== src/Queue/Info.antt =====
-- sabnzbd/nzbqueue.py: `queue_info`, the page of the queue that the interface shows.
pub mod Page
use sabnzbd.Prelude.{
  ℕ, suc, ◌+◌, Bool, true, false, not, ◌&&◌, ◌||◌, ◌==◌, ltb, leb, if◌then◌else◌, List, [], ◌∷◌,
  ◌++◌, length, contains, ℤ, pos, ◌+ℤ◌, eqb_ℤ,
}
use sabnzbd.Job.{
  Nzo, Status, Text, force_priority, is_paused, remaining, is_nil, idle, completed, checking,
  downloading, extracting, failed, fetching, grabbing, moving, paused, queued, quick_check,
  repairing, running, verifying, deleted, propagating,
}
use sabnzbd.Queue.State.{Queue}
use sabnzbd.Queue.Sort.{lower}

abbrev status_code : Status → ℕ
status_code idle = 0
status_code completed = 1
status_code checking = 2
status_code downloading = 3
status_code extracting = 4
status_code failed = 5
status_code fetching = 6
status_code grabbing = 7
status_code moving = 8
status_code paused = 9
status_code queued = 10
status_code quick_check = 11
status_code repairing = 12
status_code running = 13
status_code verifying = 14
status_code deleted = 15
status_code propagating = 16

abbrev pub same_status : Status → Status → Bool
same_status a b = status_code a == status_code b

abbrev pub eq_text : Text → Text → Bool
eq_text [] [] = true
eq_text [] (d ∷ t) = false
eq_text (c ∷ s) [] = false
eq_text (c ∷ s) (d ∷ t) = (c == d) && eq_text s t

abbrev starts_with : Text → Text → Bool
starts_with [] t = true
starts_with (c ∷ s) [] = false
starts_with (c ∷ s) (d ∷ t) = (c == d) && starts_with s t

-- `s in t`
abbrev pub is_substring : Text → Text → Bool
is_substring s [] = is_nil s
is_substring s (c ∷ t) = starts_with s (c ∷ t) || is_substring s t

abbrev pub some_of {ℓ} : {A : Type ℓ} → (A → Bool) → List A → Bool
some_of p [] = false
some_of p (x ∷ xs) = p x || some_of p xs

-- The filters; an empty one lets all jobs pass.
pub record Filters : Type 0 where
  pub search : Text
  pub categories : List Text
  pub priorities : List ℤ
  pub statuses : List Status
  pub nzo_ids : List ℕ

-- The tests of the loop body that do not `continue`. `delay_left` is the property
-- `propagation_delay_left`, which depends on the time.
unfoldable pub matches : (ℕ → ℕ) → Filters → (ℕ → Nzo) → ℕ → Bool
matches delay_left w jobs id =
    let nzo = jobs id in
    not (not (is_nil w.search) && not (is_substring (lower w.search) (lower nzo.final_name)))
    && not (not (is_nil w.categories) && not (some_of (eq_text nzo.cat) w.categories))
    && not (not (is_nil w.priorities) && not (some_of (eqb_ℤ nzo.priority) w.priorities))
    && not (
        not (is_nil w.statuses)
        && not (some_of (same_status nzo.status) w.statuses)
        && not (some_of (same_status propagating) w.statuses && ltb 0 (delay_left id)))
    && not (not (is_nil w.nzo_ids) && not (contains id w.nzo_ids))

pub record Info : Type 0 where
  pub bytes_total : ℤ
  pub bytes_left : ℤ
  pub bytes_left_previous_page : ℤ
  pub page : List ℕ
  pub q_size : ℕ
  pub nzos_matched : ℕ

-- `nzo.status not in (Status.PAUSED, Status.CHECKING) or nzo.priority == FORCE_PRIORITY`
abbrev is_checking : Status → Bool
is_checking checking = true
is_checking _ = false

abbrev pub is_counted : Nzo → Bool
is_counted nzo =
    not (is_paused nzo.status || is_checking nzo.status) || eqb_ℤ nzo.priority force_priority

unfoldable pub counted : ℕ → Nzo → Info → Info
unfolding remaining
counted start nzo i =
    if is_counted nzo
    then record i {
      bytes_total = i.bytes_total +ℤ nzo.bytes;
      bytes_left = i.bytes_left +ℤ remaining nzo;
      q_size = i.q_size + 1;
      bytes_left_previous_page =
          if ltb i.nzos_matched start
          then i.bytes_left_previous_page +ℤ remaining nzo
          else i.bytes_left_previous_page;
    }
    else i

unfoldable pub listed : ℕ → ℕ → ℕ → Info → Info
listed start limit id i = record i {
  page =
      if (limit == 0) || (leb start i.nzos_matched && ltb i.nzos_matched (start + limit))
      then i.page ++ id ∷ []
      else i.page;
  nzos_matched = i.nzos_matched + 1;
}

unfoldable pub visit : (ℕ → ℕ) → Filters → ℕ → ℕ → (ℕ → Nzo) → ℕ → Info → Info
unfolding counted listed
visit delay_left w start limit jobs id i =
    let i' = counted start (jobs id) i in
    if matches delay_left w jobs id then listed start limit id i' else i'

unfoldable pub visit_all : (ℕ → ℕ) → Filters → ℕ → ℕ → (ℕ → Nzo) → List ℕ → Info → Info
unfolding visit
visit_all delay_left w start limit jobs [] i = i
visit_all delay_left w start limit jobs (x ∷ xs) i =
    visit_all delay_left w start limit jobs xs (visit delay_left w start limit jobs x i)

abbrev pub no_info : Info
no_info = record {
  bytes_total = pos 0;
  bytes_left = pos 0;
  bytes_left_previous_page = pos 0;
  page = [];
  q_size = 0;
  nzos_matched = 0;
}

unfoldable pub queue_info : (ℕ → ℕ) → Filters → ℕ → ℕ → Queue → Info
unfolding visit_all
queue_info delay_left w start limit q =
    let i = visit_all delay_left w start limit q.jobs q.nzo_list no_info in
    if is_nil w.search && is_nil w.nzo_ids then record i { nzos_matched = length q.nzo_list } else i
