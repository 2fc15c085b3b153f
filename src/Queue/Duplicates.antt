-- ===== src/Queue/Duplicates.antt =====
-- sabnzbd/nzbqueue.py: the search for duplicates, and what happens to the duplicates of a job that
-- is done.
pub mod Discard
use sabnzbd.Prelude.{
  ℕ, ◌≡◌, refl, Bool, true, false, not, ◌&&◌, ◌||◌, ◌==◌, if◌then◌else◌, if_ind, Option, none, some,
  List, [], ◌∷◌, ◌++◌, map, contains, ℤ, arith,
}
use sabnzbd.Job
use sabnzbd.Job.{
  Nzo, Text, DuplicateStatus, duplicate, duplicate_alternative, smart_duplicate,
  smart_duplicate_alternative, duplicate_ignored,
}
use sabnzbd.Queue.State.{Queue, IsValid, set_job}
use sabnzbd.Queue.Sort.{lower}
use sabnzbd.Queue.Info.{eq_text, some_of}
use sabnzbd.Queue.Remove.{remove, fail_to_history}

abbrev pub is_some {ℓ} : {A : Type ℓ} → Option A → Bool
is_some none = false
is_some (some _) = true

-- `a and b and a == b`
abbrev pub same_value : Option ℕ → Option ℕ → Bool
same_value (some a) (some b) = a == b
same_value none _ = false
same_value (some a) none = false

abbrev pub eq_value : Option ℕ → Option ℕ → Bool
eq_value none none = true
eq_value (some a) (some b) = a == b
eq_value none (some b) = false
eq_value (some a) none = false

-- Jobs of the queue and of the post-processing queue that are not marked as duplicates.
pub have_name_or_md5sum : Text → Option ℕ → List Nzo → Queue → Bool
have_name_or_md5sum name md5sum pp_queue q =
    some_of
      (λ nzo.
        not (is_some nzo.duplicate_mark)
        && (eq_text (lower nzo.final_name) (lower name) || same_value nzo.md5sum md5sum))
      (map q.jobs q.nzo_list ++ pp_queue)

pub have_duplicate_key : Option ℕ → List Nzo → Queue → Bool
have_duplicate_key key pp_queue q =
    some_of (λ nzo. not (is_some nzo.duplicate_mark) && eq_value nzo.duplicate_key key)
      (map q.jobs q.nzo_list ++ pp_queue)

-- The settings `no_dupes` and `no_smart_dupes`: 1 Discards, 2 pauses, 3 fails, 4 tags.
pub record DupeSettings : Type 0 where
  pub no_dupes : ℕ
  pub no_smart_dupes : ℕ

abbrev pub is_alternative : Nzo → Bool
is_alternative nzo = elim nzo.duplicate_mark [
  | none ↦ false
  | some d ↦ elim d [ duplicate_ignored ↦ false | _ ↦ true ]
]

abbrev pub is_duplicate_of : Nzo → Nzo → Bool
is_duplicate_of finished nzo =
    eq_text (lower nzo.final_name) (lower finished.final_name)
    || same_value nzo.md5sum finished.md5sum
    || same_value nzo.duplicate_key finished.duplicate_key

abbrev pub is_plain_alternative : Option DuplicateStatus → Bool
is_plain_alternative (some duplicate_alternative) = true
is_plain_alternative _ = false

abbrev pub is_smart_alternative : Option DuplicateStatus → Bool
is_smart_alternative (some smart_duplicate_alternative) = true
is_smart_alternative _ = false

-- The next alternative starts, unless duplicates are only tagged.
unfoldable pub started : DupeSettings → Nzo → Nzo
unfolding Job.resume
started c nzo =
    let nzo' =
      if (is_plain_alternative nzo.duplicate_mark && not (c.no_dupes == 4))
        || (is_smart_alternative nzo.duplicate_mark && not (c.no_smart_dupes == 4))
      then Job.resume nzo
      else nzo in
    record nzo' { duplicate_mark = none }

abbrev pub retagged : Option DuplicateStatus → Option DuplicateStatus
retagged (some duplicate_alternative) = some duplicate
retagged _ = some smart_duplicate

-- Which action is set for a duplicate.
abbrev pub action_is : ℕ → DupeSettings → Nzo → Bool
action_is n c nzo =
    (not (is_smart_alternative nzo.duplicate_mark) && (c.no_dupes == n))
    || (is_smart_alternative nzo.duplicate_mark && (c.no_smart_dupes == n))

-- The text of `fail_msg`, "Duplicate NZB".
abbrev pub duplicate_nzb : Text
duplicate_nzb = 68 ∷ 117 ∷ 112 ∷ 108 ∷ 105 ∷ 99 ∷ 97 ∷ 116 ∷ 101 ∷ 32 ∷ 78 ∷ 90 ∷ 66 ∷ []

-- The loop over a copy of the list.
unfoldable pub handle_from : DupeSettings → Nzo → Bool → List ℕ → Queue → Queue
unfolding started remove fail_to_history
handle_from c finished success [] q = q
handle_from c finished success (x ∷ xs) q =
    let go_on = handle_from c finished success xs in
    let nzo = q.jobs x in
    if is_alternative nzo && is_duplicate_of finished nzo
    then (if not success
        then set_job x (started c nzo) q
        else if action_is 1 c nzo
        then go_on (remove x true true q).1
        else if action_is 3 c nzo
        then go_on (fail_to_history x (set_job x (record nzo { fail_msg = duplicate_nzb }) q))
        else set_job x (record nzo { duplicate_mark = retagged nzo.duplicate_mark }) q)
    else go_on q

unfoldable pub handle_duplicate_alternatives : DupeSettings → Nzo → Bool → Queue → Queue
unfolding handle_from
handle_duplicate_alternatives c finished success q =
    if (c.no_dupes == 0) && (c.no_smart_dupes == 0)
    then q
    else handle_from c finished success q.nzo_list q
