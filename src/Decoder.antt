-- ===== src/Decoder.antt =====
-- sabnzbd/decoder.py: what becomes of an article whose answer from a server was received. The decoding
-- itself is sabctools, of which the response holds the results. A line of the response is what the
-- code looks for in it.
pub mod Tried
pub mod Handled
pub mod Tests
use sabnzbd.Prelude.{
  ℕ, ◌+◌, Bool, true, false, not, ◌&&◌, ◌||◌, ◌==◌, if◌then◌else◌, Option, none, some, List, [],
  ◌∷◌, ◌++◌, take,
}
use sabnzbd.Job.{is_nil}

abbrev pub Data : Type 0
Data = List ℕ

-- Whether a line starts with `message-id:` or with `x-`, and whether it has a clue of a takedown.
pub record Line : Type 0 where
  pub is_message_id : Bool
  pub is_x_header : Bool
  pub has_clue : Bool

pub record NntpResponse : Type 0 where
  pub is_uu : Bool
  pub status_code : ℕ
  pub lines : List Line
  pub bytes : Data
  pub bytes_decoded : ℕ
  pub baddata : Bool
  pub crc : Option ℕ
  pub file_size : ℕ
  pub part_begin : ℕ
  pub part_size : ℕ
  pub file_name : Option ℕ

-- An exception that is not raised by the code of the module: no memory, a ValueError, or another.
pub data Failure : Type 0 where
  memory_error value_error other_error : Failure

-- Whether the job is only checked, whether the article finds another server, and what other modules
-- raise: when the answer is read, before the article is changed, or when the name of the file is verified.
pub record World : Type 0 where
  pub precheck : Bool
  pub finds_new_server : Bool
  pub failure : Option Failure
  pub name_failure : Option Failure

pub data FileType : Type 0 where
  yenc uu : FileType

-- The article and its file, and the calls: the data saved in the cache, the results registered with
-- the queue, the names to verify, the bad articles of the job, whether the article may be fetched
-- again, and whether the downloader was paused.
pub record Article : Type 0 where
  pub lowest_partnum : Bool
  pub file_size : ℕ
  pub data_begin : ℕ
  pub data_size : ℕ
  pub decoded_size : ℕ
  pub crc32 : Option ℕ
  pub decoded : Bool
  pub on_disk : Bool
  pub nzf_type : Option FileType
  pub filename_checked : Bool
  pub hashed : Option Data
  pub saved : List Data
  pub registered : List Bool
  pub names : List ℕ
  pub bad_articles : ℕ
  pub new_fetcher : Bool
  pub pauses : Bool

-- How the decoding ended: with data, or with an exception.
pub data Attempt : Type 0 where
  decoded_data bad_data : Data → Attempt
  bad_yenc bad_uu out_of_memory unknown_error : Attempt

abbrev pub raise : Failure → Attempt
raise memory_error = out_of_memory
raise value_error = bad_yenc
raise other_error = unknown_error

-- `md5of16k` is that of these bytes.
abbrev pub hash_first : Data → Article → Article
hash_first bytes a = record a {
  hashed = if a.lowest_partnum then some (take 16384 bytes) else a.hashed;
}

-- The name in the article is verified until the name of the file is known; the first article gives the
-- hash of the start of the file. An exception ends the decoding here.
abbrev pub verify_name : World → Option ℕ → Data → Article → Option Failure × Article
verify_name w none bytes a = (none, a)
verify_name w (some name) bytes a = if a.filename_checked then (none, a) else elim w.name_failure [
  | some f ↦ (some f, hash_first bytes a)
  | none ↦ (none, record (hash_first bytes a) { names = a.names ++ name ∷ [] })
]

abbrev pub checked : Option ℕ → Data → Option Failure × Article → Attempt × Article
checked crc bytes (some f, a) = (raise f, a)
checked none bytes (none, a) = (bad_data bytes, a)
checked (some crc) bytes (none, a) = (decoded_data bytes, record a { crc32 = some crc })

unfoldable pub decode_yenc : World → NntpResponse → Article → Attempt × Article
decode_yenc w r a = checked r.crc r.bytes (
    verify_name w r.file_name r.bytes (record a {
      file_size = r.file_size;
      data_begin = r.part_begin;
      data_size = r.part_size;
      decoded_size = r.bytes_decoded;
      nzf_type = some yenc;
    }))

abbrev pub set_crc : Option ℕ → Data → Option Failure × Article → Attempt × Article
set_crc crc bytes (some f, a) = (raise f, a)
set_crc crc bytes (none, a) = (decoded_data bytes, record a { crc32 = crc })

unfoldable pub decode_uu : World → NntpResponse → Article → Attempt × Article
decode_uu w r a =
    if r.bytes_decoded == 0
    then (bad_uu, a)
    else if r.baddata
    then (bad_data r.bytes, a)
    else set_crc r.crc r.bytes (
        verify_name w r.file_name r.bytes
          (record a { decoded_size = r.bytes_decoded; nzf_type = some uu }))

unfoldable pub attempt : World → NntpResponse → Article → Attempt × Article
unfolding decode_yenc decode_uu
attempt w r a = if w.precheck then (bad_yenc, a) else elim w.failure [
  | some f ↦ (raise f, a)
  | none ↦ if r.is_uu then decode_uu w r a else decode_yenc w r a
]

-- `search_new_server`: without another server the job has one more bad article.
unfoldable pub search_new_server : World → Article → Bool × Article
search_new_server w a =
    if w.finds_new_server
    then (true, record a { new_fetcher = true })
    else (false, record a { bad_articles = a.bad_articles + 1 })

-- The headers: the article is there when it has a message id, until a clue says that it was removed.
unfoldable pub read_lines : List Line → Bool → Bool
read_lines [] success = success
read_lines (l ∷ lines) success =
    let rest = read_lines lines (success || l.is_message_id) in
    if not l.is_x_header && l.has_clue then false else rest

-- The data is saved, or there is nothing to save, and the article is registered.
unfoldable pub finish : World → Data → Bool → Article → Article
finish w bytes success a =
    let a : Article =
      if is_nil bytes
      then (if w.precheck then a else record a { on_disk = true })
      else record a { saved = a.saved ++ bytes ∷ []; decoded = true } in
    record a { registered = a.registered ++ success ∷ [] }

abbrev pub unless_found : (Article → Article) → Bool × Article → Article
unless_found next (true, a) = a
unless_found next (false, a) = next a

unfoldable pub handle : World → NntpResponse → Attempt × Article → Article
unfolding search_new_server finish read_lines
handle w r (decoded_data bytes, a) = finish w bytes true a
handle w r (out_of_memory, a) = record a { pauses = true; new_fetcher = true }
handle w r (bad_data bytes, a) = unless_found (λ a. finish w bytes false a) (search_new_server w a)
handle w r (bad_uu, a) = unless_found (λ a. finish w [] false a) (search_new_server w a)
handle w r (unknown_error, a) = unless_found (λ a. finish w [] false a) (search_new_server w a)
handle w r (bad_yenc, a) =
    if w.precheck && r.status_code == 223 || read_lines r.lines false
    then finish w [] true a
    else unless_found (λ a. finish w [] false a) (search_new_server w a)

unfoldable pub decode : World → NntpResponse → Article → Article
unfolding attempt handle
decode w r a = handle w r (attempt w r a)
