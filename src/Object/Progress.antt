-- ===== src/Object/Progress.antt =====
-- sabnzbd/nzb/object.py: `remove_article`, the bookkeeping of an article that was fetched or given
-- up. `resort` is `verify_all_filenames_and_resort` for a job with hashes from par2, else the
-- identity: it renames the files and sorts their list.
pub mod Fit
pub mod Report
use sabnzbd.Prelude.{
  ℕ, ◌+◌, ◌≡◌, refl, sym, subst, ◌∙◌, Bool, true, false, not, ◌&&◌, ◌⊎◌, inl, inr, ◌==◌, ltb, leb,
  if◌then◌else◌, if_ind, List, [], ◌∷◌, length, contains, contains-add_key,
  contains-remove_one_self, Distinct, remove_one, pos, ◌+ℤ◌, arith, ==_refl,
}
use sabnzbd.Job.{is_nil}
use sabnzbd.File
use sabnzbd.File.{NzbFile}
use sabnzbd.Prelude.Dict.{Dict}
use sabnzbd.Object.Par2.{add_parfile-IsAdded}
use sabnzbd.Object.{
  NzbObject, Settings, blocks_of, add_parfile, add_blocks, add_sets, max_bad_articles, set_nzf,
  remove_nzf, prospective_add, check_availability_ratio, check_first_article_availability,
}

-- Bytes of par2 files that are not in the list do not count as tried.
unfoldable pub count_tried : ℕ → ℕ → NzbObject → NzbObject
unfolding ◌+ℤ◌
count_tried id bytes o =
    if contains id o.nzo.files
    then record o { nzo = record o.nzo { bytes_tried = o.nzo.bytes_tried +ℤ pos bytes } }
    else o

unfoldable pub count_missing : ℕ → ℕ → NzbObject → NzbObject
unfolding ◌+ℤ◌
count_missing id bytes o =
    if (o.nzf id).is_par2 then o else record o { bytes_missing = o.bytes_missing +ℤ pos bytes }

-- For a damaged article par2 files are added, if this is no pre-check.
unfoldable pub compensate : ℕ → NzbObject → NzbObject
unfolding prospective_add
compensate id o = if not (is_nil o.extrapars) && not o.nzo.precheck then prospective_add id o else o

abbrev check_unpacker : NzbObject → NzbObject
check_unpacker o =
    if ltb max_bad_articles o.bad_articles
    then record o { unpack_aborts = o.unpack_aborts + 1 }
    else o

unfoldable pub count_article : ℕ → ℕ → Bool → NzbObject → NzbObject
unfolding count_tried count_missing compensate ◌+ℤ◌
count_article id bytes success o =
    let tried = count_tried id bytes o in
    if success
    then record tried { bytes_downloaded = tried.bytes_downloaded +ℤ pos bytes }
    else check_unpacker (compensate id (count_missing id bytes tried))

-- Whether the job can succeed after one of the first articles.
unfoldable pub first_done :
    Settings → (NzbObject → NzbObject) → ℕ → Bool → NzbObject → Bool × NzbObject
unfolding check_first_article_availability
first_done w resort article lowest o =
    if lowest && contains article o.first_articles
    then (let first_articles = remove_one article o.first_articles in
        let o' = record o { first_articles = first_articles } in
        if is_nil first_articles
        then (let o2 = resort o' in
            (
              if w.fail_hopeless_jobs && w.fast_fail
                  then check_first_article_availability o2
                  else true,
              o2,
            ))
        else (true, o'))
    else (true, o)

-- The article leaves its file, and a file that is done leaves the job: the number of articles left,
-- whether the file is done, and the job.
unfoldable pub untrack : ℕ → ℕ → Bool → NzbObject → ℕ × Bool × NzbObject
unfolding File.remove_article remove_nzf
untrack article id success o =
    let (articles_left, f) = File.remove_article article success (o.nzf id) in
    let o' = set_nzf id f o in
    let file_done = (articles_left == 0) && f.import_finished in
    (articles_left, file_done, if file_done then (remove_nzf id o').1 else o')

abbrev pub abort : Settings → NzbObject → NzbObject
abort w o = record o { nzo = record o.nzo { fail_msg = w.not_complete } }

-- The articles left (True counts as 1), whether the file is done, and whether the job is.
unfoldable pub conclude :
    Settings → Bool → Bool → ℕ × Bool × NzbObject → ℕ × Bool × Bool × NzbObject
unfolding check_availability_ratio
conclude w success can_succeed (articles_left, file_done, o) =
    let job_can_succeed =
      if not success && can_succeed && not o.nzo.reuse && w.fail_hopeless_jobs
      then check_availability_ratio w o
      else can_succeed in
    if job_can_succeed
    then (articles_left, file_done, is_nil o.nzo.files, o)
    else (1, true, true, abort w o)

unfoldable pub remove_article :
    Settings → (NzbObject → NzbObject) → ℕ → Bool → NzbObject → ℕ × Bool × Bool × NzbObject
unfolding count_article first_done untrack conclude
remove_article w resort article success o =
    let id = o.owner article in
    let a = (o.nzf id).store article in
    let (can_succeed, o') =
      first_done w resort article a.lowest_partnum (count_article id a.bytes success o) in
    conclude w success can_succeed (untrack article id success o')
