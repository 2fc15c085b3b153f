-- ===== src/Object/Fetch.antt =====
-- sabnzbd/nzb/object.py: `get_articles`, which fills a server's queue with articles of a job. `load`
-- gives the entries of a file's admin file, and `highest` is `Downloader.highest_server`.
pub mod Limit
use sabnzbd.Prelude.{
  ℕ, ◌+◌, ◌≤◌, ◌<◌, ◌≡◌, refl, ◌∙◌, Bool, true, false, not, ◌&&◌, ◌||◌, leb, if◌then◌else◌, if_ind,
  List, [], ◌∷◌, ◌++◌, length, length-append, contains, contains-add_key, remove_one, arith,
  ==_refl,
}
use sabnzbd.Job.{paused, is_nil}
use sabnzbd.Article
use sabnzbd.Article.{Server, add_to_try_list}
use sabnzbd.File
use sabnzbd.File.{NzbFile, RawArticles, set_article, finish_import}
use sabnzbd.File.Fetch.{get_articles-le_limit}
use sabnzbd.Object.{NzbObject, set_nzf}

-- The first loop, over the first articles of all files: it ends at one that is not available.
unfoldable pub first_from :
    Server → List Server → ℕ → List ℕ → List ℕ × NzbObject → List ℕ × NzbObject
first_from server servers fetch_limit [] (queue, o) = (queue, o)
first_from server servers fetch_limit (x ∷ xs) (queue, o) =
    let f = o.nzf (o.owner x) in
    let (given, a) = Article.get_article server servers (f.store x) in
    let o' = set_nzf (o.owner x) (set_article x a f) o in
    let queue' = queue ++ x ∷ [] in
    let rest = first_from server servers fetch_limit xs (queue', o') in
    if given then (if leb fetch_limit (length queue') then (queue', o') else rest) else (queue, o')

-- The loop over the files: the queue, the files that could not be imported, and the job.
unfoldable pub fetch_file :
    Server
    → List Server
    → ℕ
    → (List ℕ × List ℕ × NzbObject → List ℕ × List ℕ × NzbObject)
    → ℕ
    → NzbFile
    → List ℕ × List ℕ × NzbObject
    → List ℕ × List ℕ × NzbObject
unfolding File.get_articles
fetch_file server servers fetch_limit go_on id f (queue, failed, o) =
    let (queue', f') = File.get_articles server servers fetch_limit (queue, f) in
    let r : List ℕ × List ℕ × NzbObject = (queue', failed, set_nzf id f' o) in
    if is_nil queue' then go_on r else r

unfoldable pub files_from :
    (ℕ → RawArticles)
    → (Server → Bool)
    → Server
    → List Server
    → ℕ
    → List ℕ
    → List ℕ × List ℕ × NzbObject
    → List ℕ × List ℕ × NzbObject
unfolding fetch_file finish_import
files_from load highest server servers fetch_limit [] r = r
files_from load highest server servers fetch_limit (x ∷ xs) (queue, failed, o) =
    let go_on = files_from load highest server servers fetch_limit xs in
    let f = o.nzf x in
    let f' = finish_import (load x) f in
    let failure : List ℕ × List ℕ × NzbObject = (
      queue,
      failed ++ x ∷ [],
      record (set_nzf x f' o) { nzo = record o.nzo { status = paused } },
    ) in
    if f.deleted || contains server.id f.try_list
    then go_on (queue, failed, o)
    else if f.import_finished
    then fetch_file server servers fetch_limit go_on x f (queue, failed, o)
    else if not (highest server)
    then (queue, failed, o)
    else if not f'.import_finished && not o.nzo.removed_from_queue
    then go_on failure
    else fetch_file server servers fetch_limit go_on x f' (queue, failed, o)

-- Files whose admin file could not be read leave the job.
unfoldable pub drop_failed : List ℕ → NzbObject → NzbObject
drop_failed [] o = o
drop_failed (x ∷ xs) o = drop_failed xs (
    set_nzf x (record (o.nzf x) { deleted = true })
      (record o { nzo = record o.nzo { files = remove_one x o.nzo.files } }))

abbrev pub end_if_empty : List ℕ → NzbObject → NzbObject
end_if_empty failed o =
    if not (is_nil failed) && is_nil o.nzo.files then record o { ends = o.ends + 1 } else o

-- No articles for this server: the job is blocked for the next time.
abbrev pub block_if_empty : Server → List ℕ × NzbObject → List ℕ × NzbObject
block_if_empty server (queue, o) =
    if is_nil queue
    then (
      queue,
      record o { nzo = record o.nzo { try_list = add_to_try_list server.id o.nzo.try_list } },
    )
    else (queue, o)

unfoldable pub get_articles :
    (ℕ → RawArticles)
    → (Server → Bool)
    → Server
    → List Server
    → ℕ
    → List ℕ × NzbObject
    → List ℕ × NzbObject
unfolding first_from files_from drop_failed
get_articles load highest server servers fetch_limit (queue, o) =
    let (queue1, o1) = first_from server servers fetch_limit o.first_articles (queue, o) in
    let (queue2, failed, o2) =
      if is_nil queue1
      then files_from load highest server servers fetch_limit o1.nzo.files (queue1, [], o1)
      else (queue1, [], o1) in
    block_if_empty server (queue2, end_if_empty failed (drop_failed failed o2))
