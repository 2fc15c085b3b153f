-- ===== src/Assembler.antt =====
-- sabnzbd/assembler.py: the queue of the assembler, the bytes of files that are ready to be written,
-- and the delay of the downloader. A file is its id, time is in seconds, and the factors of the limits
-- are fractions: what the code rounds down from a float is rounded down here.
pub mod Writing
pub mod Assemble
pub mod Ready
pub mod Tests
use sabnzbd.Prelude.{
  ℕ, ◌+◌, ◌-◌, ◌*◌, ◌/◌, min, max, Bool, true, false, not, ◌&&◌, ◌||◌, ltb, leb, if◌then◌else◌,
  Option, none, some, List, [], ◌∷◌, ◌++◌, contains, add_key, remove_one, ℤ, pos, negsuc, ◌+ℤ◌,
}
use sabnzbd.Prelude.Dict
use sabnzbd.Prelude.Dict.{Dict}
use sabnzbd.Job.{is_nil}

-- What the assembler reads of a file; `next_ready` is whether its next article is decoded or on disk.
pub record NzbFile : Type 0 where
  pub is_yenc : Bool
  pub filename_checked : Bool
  pub import_finished : Bool
  pub next_ready : Bool
  pub contiguous_ready_bytes : ℕ

-- An article that was decoded.
pub record Article : Type 0 where
  pub lowest_partnum : Bool
  pub decoded_size : ℕ

-- `AssemblerTask`; one without a job ends the thread, and one without a file sends the job to the
-- post-processor.
pub record AssemblerTask : Type 0 where
  pub nzo : Option ℕ
  pub nzf : Option ℕ
  pub file_done : Bool
  pub allow_non_contiguous : Bool
  pub direct_write : Bool

pub record Assembler : Type 0 where
  pub max_queue_size : ℕ
  pub direct_write : Bool
  pub cache_limit : ℕ
  pub assembler_trigger : ℕ
  pub delay_trigger : ℕ
  pub queue : List AssemblerTask
  pub queued_nzf : List ℕ
  pub queued_nzf_non_contiguous : List ℕ
  pub queued_next_time : Dict ℕ
  pub ready_bytes : Dict ℕ

unfoldable pub stop : Assembler → Assembler
stop a = record a {
  queue =
      a.queue
      ++ record {
        nzo = none;
        nzf = none;
        file_done = false;
        allow_non_contiguous = false;
        direct_write = false;
      }
        ∷ [];
}

-- A direct write waits for more than the queue, or for the share of the cache that is flushed.
unfoldable pub calculate_delay_trigger : Assembler → Assembler
calculate_delay_trigger a = record a {
  delay_trigger =
      if a.direct_write
      then max (750000 * a.max_queue_size * 3 / 2) (a.cache_limit * 9 / 10)
      else max (750000 * a.max_queue_size)
          (min (a.assembler_trigger * a.max_queue_size) (a.cache_limit / 2));
}

unfoldable pub change_direct_write : Bool → Assembler → Assembler
unfolding calculate_delay_trigger
change_direct_write direct_write a =
    calculate_delay_trigger (record a { direct_write = direct_write })

-- A twentieth of the limit triggers the writing; `direct_write` is the setting.
unfoldable pub new_limit : ℕ → Bool → Assembler → Assembler
unfolding change_direct_write
new_limit limit direct_write a =
    change_direct_write direct_write
      (record a { cache_limit = limit; assembler_trigger = max 1 (limit / 20) })

unfoldable pub is_busy : Assembler → Bool
is_busy a = not (is_nil a.queued_nzf) || not (is_nil a.queued_nzf_non_contiguous)

unfoldable pub total_ready_bytes : Assembler → ℕ
total_ready_bytes a = Dict.total (λ n. n) a.ready_bytes

abbrev pub get_or_zero : Option ℕ → ℕ
get_or_zero none = 0
get_or_zero (some n) = n

-- The bytes of a file after a change, of which none are kept when they are used up.
abbrev pub keep_ready : ℕ → ℤ → Dict ℕ → Dict ℕ
keep_ready nzf (pos n) ready = if ltb 0 n then Dict.put nzf n ready else Dict.remove nzf ready
keep_ready nzf (negsuc _) ready = Dict.remove nzf ready

unfoldable pub update_ready_bytes : ℕ → ℤ → Assembler → ℤ × Assembler
unfolding ◌+ℤ◌
update_ready_bytes nzf delta a =
    let cur = pos (get_or_zero (Dict.get nzf a.ready_bytes)) +ℤ delta in
    (cur, record a { ready_bytes = keep_ready nzf cur a.ready_bytes })

unfoldable pub clear_ready_bytes : List ℕ → Assembler → Assembler
clear_ready_bytes [] a = a
clear_ready_bytes (nzf ∷ nzfs) a = clear_ready_bytes nzfs (record a {
  ready_bytes = Dict.remove nzf a.ready_bytes;
  queued_next_time = Dict.remove nzf a.queued_next_time;
})

unfoldable pub should_track_ready_bytes : Option Article → Bool → Bool
should_track_ready_bytes none allow_non_contiguous = false
should_track_ready_bytes (some article) allow_non_contiguous =
    not allow_non_contiguous && ltb 0 article.decoded_size

abbrev pub has_first_part : Option Article → Bool
has_first_part none = false
has_first_part (some article) = article.lowest_partnum

abbrev pub leb_pos : ℕ → ℤ → Bool
leb_pos n (pos m) = leb n m
leb_pos n (negsuc _) = false

-- `now` is the time of the clock.
unfoldable pub should_queue_nzf : ℕ → ℕ → NzbFile → Bool → Bool → Bool → ℤ → Assembler → Bool
should_queue_nzf now id nzf article_has_first_part file_done allow_non_contiguous ready a =
    if file_done
    then true
    else if contains id a.queued_nzf
    then false
    else if article_has_first_part && nzf.filename_checked && not nzf.import_finished
    then true
    else if nzf.next_ready && ltb (get_or_zero (Dict.get id a.queued_next_time)) now
    then true
    else if not a.direct_write || not nzf.is_yenc
    then nzf.next_ready
      && leb_pos a.assembler_trigger ready
      && leb a.assembler_trigger nzf.contiguous_ready_bytes
    else if allow_non_contiguous
    then true
    else nzf.next_ready && leb_pos a.assembler_trigger ready

abbrev pub write_interval : ℕ
write_interval = 5

abbrev pub put_task : ℕ → Option ℕ → ℕ → NzbFile → Bool → Bool → Assembler → Assembler
put_task now nzo id nzf file_done allow_non_contiguous a = record a {
  queued_next_time = Dict.put id (now + write_interval) a.queued_next_time;
  queue =
      a.queue
      ++ record {
        nzo = nzo;
        nzf = some id;
        file_done = file_done;
        allow_non_contiguous = allow_non_contiguous;
        direct_write = a.direct_write && nzf.is_yenc;
      }
        ∷ [];
}

-- The file is queued, unless it is by now.
unfoldable pub queue_file : ℕ → Option ℕ → ℕ → NzbFile → Bool → Bool → Assembler → Assembler
queue_file now nzo id nzf file_done allow_non_contiguous a =
    if not file_done && contains id a.queued_nzf
    then a
    else if allow_non_contiguous
    then (if not file_done && contains id a.queued_nzf_non_contiguous
        then a
        else put_task now nzo id nzf file_done true
            (record a { queued_nzf_non_contiguous = add_key id a.queued_nzf_non_contiguous }))
    else put_task now nzo id nzf file_done false (record a { queued_nzf = add_key id a.queued_nzf })

abbrev pub track : ℕ → Option Article → Bool → Assembler → ℤ × Assembler
track id none allow_non_contiguous a = (pos 0, a)
track id (some article) allow_non_contiguous a =
    if should_track_ready_bytes (some article) allow_non_contiguous
    then update_ready_bytes id (pos article.decoded_size) a
    else (pos 0, a)

abbrev pub set_next_time : ℕ → ℕ → Bool → Assembler → Assembler
set_next_time now id article_has_first_part a =
    if article_has_first_part
    then record a { queued_next_time = Dict.put id (now + write_interval) a.queued_next_time }
    else a

-- `process` with a file, and without one: the job goes to the post-processor in turn.
unfoldable pub process_file :
    ℕ → Option ℕ → ℕ → NzbFile → Bool → Bool → Option Article → Assembler → Assembler
unfolding queue_file should_queue_nzf
process_file now nzo id nzf file_done allow_non_contiguous article a =
    let (ready, a') = track id article allow_non_contiguous a in
    let first = has_first_part article in
    let a'' = set_next_time now id first a' in
    if should_queue_nzf now id nzf first file_done allow_non_contiguous ready a''
    then queue_file now nzo id nzf file_done allow_non_contiguous a''
    else a''

unfoldable pub send_job : ℕ → Assembler → Assembler
send_job nzo a = record a {
  queue =
      a.queue
      ++ record {
        nzo = some nzo;
        nzf = none;
        file_done = false;
        allow_non_contiguous = false;
        direct_write = false;
      }
        ∷ [];
}

-- The seconds that the downloader waits, as a fraction: none below the trigger and up to half of the
-- pressure, and then between a thousandth of a second and 0.15 seconds.
unfoldable pub delay : Assembler → ℕ × ℕ
unfolding total_ready_bytes
delay a =
    let over = total_ready_bytes a - a.delay_trigger in
    let room = max 1 (a.cache_limit - a.delay_trigger) in
    if leb (total_ready_bytes a) a.delay_trigger || leb (2 * over) room
    then (0, 1)
    else if ltb (15 * (4 * room)) (100 * (2 * over - room))
    then (15, 100)
    else if ltb (1000 * (2 * over - room)) (4 * room)
    then (1, 1000)
    else (2 * over - room, 4 * room)

-- A round of `run` takes the first task.
unfoldable pub take_task : Assembler → Option AssemblerTask × Assembler
take_task a = take a.queue
  where
    take : List AssemblerTask → Option AssemblerTask × Assembler
    take [] = (none, a)
    take (t ∷ rest) = (some t, record a { queue = rest })

-- After the writing of a file's task, also when it failed; `has_path` is whether the file had a path.
unfoldable pub end_task : Bool → AssemblerTask → Assembler → Assembler
unfolding clear_ready_bytes
end_task has_path t a = elim t.nzf [
  | none ↦ a
  | some id ↦
      let a' = if has_path && t.file_done then clear_ready_bytes (id ∷ []) a else a in
      if t.allow_non_contiguous
      then record a' { queued_nzf_non_contiguous = remove_one id a'.queued_nzf_non_contiguous }
      else record a' { queued_nzf = remove_one id a'.queued_nzf }
]
