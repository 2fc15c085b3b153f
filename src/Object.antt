-- ===== src/Object.antt =====
-- sabnzbd/nzb/object.py: a job with its files (NzbObject). A file is a reference, and `nzf` holds the
-- file objects; `owner` is the file of an article. An extra par2 file knows its number of blocks.
-- `in` tests identity here: the constructor of a file skips one that equals another of the job.
pub mod Fetch
pub mod Tests
pub mod Par2
pub mod Progress
pub mod Moves
use sabnzbd.Prelude.{
  ℕ, ◌+◌, ◌*◌, Bool, true, false, not, ◌&&◌, ◌||◌, ◌==◌, ltb, leb, if◌then◌else◌, Option, none,
  some, List, [], ◌∷◌, ◌++◌, length, contains, remove_one, add_key, keep, ℤ, pos, ◌+ℤ◌, ◌-ℤ◌, ◌*ℤ◌,
  leb_ℤ, ltb_ℤ,
}
use sabnzbd.Prelude.Dict
use sabnzbd.Prelude.Dict.{Dict}
use sabnzbd.Job.{Nzo, Text, paused, is_nil}
use sabnzbd.Article
use sabnzbd.Article.{Server, Article, add_to_try_list}
use sabnzbd.File
use sabnzbd.File.{NzbFile, RawArticles, size_or_zero, set_article}
use sabnzbd.Queue.Sort.{sort}

pub record NzbObject : Type 0 where
  pub nzo : Nzo
  pub nzf : ℕ → NzbFile
  pub owner : ℕ → ℕ
  pub files_table : List ℕ
  pub extrapars : Dict (List ℕ)
  pub first_articles : List ℕ
  pub first_articles_count : ℕ
  pub bytes_par2 : ℤ
  pub bytes_missing : ℤ
  pub bytes_downloaded : ℤ
  pub bad_articles : ℕ
  -- Calls of other components: the direct unpacker is aborted, and the queue ends the job.
  pub unpack_aborts : ℕ
  pub ends : ℕ

-- The settings; the completion rate that is required is `req_rate / rate_unit` percent.
pub record Settings : Type 0 where
  pub fail_hopeless_jobs : Bool
  pub fast_fail : Bool
  pub req_rate : ℕ
  pub rate_unit : ℕ
  -- The text "Aborted, cannot be completed".
  pub not_complete : Text

abbrev pub max_bad_articles : ℕ
max_bad_articles = 5

abbrev pub set_nzf : ℕ → NzbFile → NzbObject → NzbObject
set_nzf id f o = record o { nzf = λ i. if i == id then f else o.nzf i }

abbrev pub reset_try_list : NzbObject → NzbObject
reset_try_list o = record o { nzo = record o.nzo { try_list = [] } }

-- `has_par2_in_filename` is told for the file.
unfoldable pub add_nzf : Bool → ℕ → NzbObject → NzbObject
unfolding ◌+ℤ◌
add_nzf is_par2 id o =
    let f = o.nzf id in
    record o {
      nzo = record o.nzo { files = o.nzo.files ++ id ∷ []; bytes = o.nzo.bytes +ℤ pos f.bytes };
      files_table = add_key id o.files_table;
      first_articles = elim f.decodetable [
        | [] ↦ o.first_articles
        | a ∷ _ ↦ o.first_articles ++ a ∷ []
      ];
      first_articles_count = elim f.decodetable [
        | [] ↦ o.first_articles_count
        | _ ∷ _ ↦ o.first_articles_count + 1
      ];
      bytes_par2 = if is_par2 then o.bytes_par2 +ℤ pos f.bytes else o.bytes_par2;
    }

-- Whether no file is left, and the job.
unfoldable pub remove_nzf : ℕ → NzbObject → Bool × NzbObject
remove_nzf id o =
    let files = remove_one id o.nzo.files in
    (
      is_nil files,
      set_nzf id (record (o.nzf id) { import_finished = true; deleted = true })
          (record o {
            nzo = record o.nzo { files = files; finished_files = add_key id o.nzo.finished_files };
          }),
    )

unfoldable pub add_parfile : ℕ → NzbObject → Bool × NzbObject
unfolding File.completed ◌-ℤ◌
add_parfile id o =
    if not (File.completed (o.nzf id))
      && not (contains id o.nzo.files)
      && not (contains id o.nzo.finished_files)
    then (
      true,
      set_nzf id (record (o.nzf id) { try_list = [] })
          (record o {
            nzo = record o.nzo {
              try_list = [];
              files = id ∷ o.nzo.files;
              bytes_tried = o.nzo.bytes_tried -ℤ (o.nzf id).bytes_left;
            };
          }),
    )
    else (false, o)

-- The file leaves all sets, and sets that are empty then go.
unfoldable pub remove_extrapar : ℕ → Dict (List ℕ) → Dict (List ℕ)
remove_extrapar id [] = []
remove_extrapar id ((setname, ids) ∷ rest) =
    let rest' = remove_extrapar id rest in
    let ids' = remove_one id ids in if is_nil ids' then rest' else (setname, ids') ∷ rest'

abbrev pub blocks_of : NzbObject → ℕ → ℕ
blocks_of o id = size_or_zero (o.nzf id).blocks

-- The inner loop of `prospective_add`.
unfoldable pub add_blocks : ℕ → List ℕ → NzbObject → NzbObject
unfolding add_parfile
add_blocks blocks_new [] o = o
add_blocks blocks_new (id ∷ ids) o =
    let (added, o') = add_parfile id o in
    let blocks' = blocks_new + blocks_of o id in
    let go_on = λ (n : ℕ). add_blocks n ids o' in
    if added then (if leb o.bad_articles blocks' then o' else go_on blocks') else go_on blocks_new

unfoldable pub add_sets : Dict (List ℕ) → NzbObject → NzbObject
unfolding add_blocks
add_sets [] o = o
add_sets ((_, ids) ∷ sets) o = add_sets sets (add_blocks 0 ids o)

unfoldable pub prospective_add : ℕ → NzbObject → NzbObject
unfolding add_sets
prospective_add id o = if (o.nzf id).is_par2 then o else reset_try_list (add_sets o.extrapars o)

unfoldable pub increase_bad_articles_counter : NzbObject → NzbObject
increase_bad_articles_counter o = record o { bad_articles = o.bad_articles + 1 }

-- Whether the ratio 100 * (bytes - missing) / (bytes - par2) is met, both sides multiplied out.
unfoldable pub check_availability_ratio : Settings → NzbObject → Bool
unfolding ◌-ℤ◌ ◌*ℤ◌
check_availability_ratio w o =
    leb o.bad_articles max_bad_articles
    || not (ltb_ℤ o.bytes_par2 o.nzo.bytes)
    || leb_ℤ (pos w.req_rate *ℤ (o.nzo.bytes -ℤ o.bytes_par2))
        (pos (100 * w.rate_unit) *ℤ (o.nzo.bytes -ℤ o.bytes_missing))

-- At least 10 first articles, of which four in five are bad.
unfoldable pub check_first_article_availability : NzbObject → Bool
check_first_article_availability o =
    o.nzo.reuse
    || not (ltb 0 o.bad_articles && leb 10 o.first_articles_count)
    || ltb (5 * o.bad_articles) (4 * o.first_articles_count)
