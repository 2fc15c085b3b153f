-- ===== src/Object/Tests.antt =====
-- sabnzbd/nzb/object.py: a job with a data file and two par2 files, and the theorems at work on it.
use sabnzbd.Prelude.{
  ℕ, ◌≡◌, List, refl, true, false, ◌==◌, if◌then◌else◌, some, [], ◌∷◌, pos, arith,
}
use sabnzbd.Queue.Tests.{linux}
use sabnzbd.Article.Tests.{block_account, all_servers}
use sabnzbd.File.{NzbFile}
use sabnzbd.File.Tests.{three_articles}
use sabnzbd.Object.{NzbObject, Settings}
use sabnzbd.Object.Par2.{IsExtended, get_extra_blocks, get_extra_blocks-IsExtended}
use sabnzbd.Object.Progress.{remove_article}
use sabnzbd.Object.Progress.Report.{IsReported, remove_article-IsReported}
use sabnzbd.Object.Moves.{move_up_bulk, move_down_bulk}
use sabnzbd.Object.Moves.Swap.{count}
use sabnzbd.Object.Moves.Files.{count-move_up_bulk}
use sabnzbd.Object.Fetch.{get_articles}
use sabnzbd.Object.Fetch.Limit.{IsFetched, get_articles-IsFetched}

abbrev par_file : NzbFile
par_file = record three_articles {
  articles = 31 ∷ [];
  decodetable = 31 ∷ [];
  is_par2 = true;
  setname = some 5;
  blocks = some 8;
}

-- File 11 is the data, 12 and 13 are par2 files of the set 5.
abbrev pub some_job : NzbObject
some_job = record {
  nzo = linux;
  nzf = λ id. if id == 11 then three_articles else par_file;
  owner = λ article. if article == 31 then 12 else 11;
  files_table = 11 ∷ 12 ∷ 13 ∷ [];
  extrapars = (5, 12 ∷ 13 ∷ []) ∷ [];
  first_articles = 21 ∷ [];
  first_articles_count = 1;
  bytes_par2 = pos 200;
  bytes_missing = pos 0;
  bytes_downloaded = pos 0;
  bad_articles = 0;
  unpack_aborts = 0;
  ends = 0;
}

abbrev strict : Settings
strict = record {
  fail_hopeless_jobs = true;
  fast_fail = true;
  req_rate = 1002;
  rate_unit = 10;
  not_complete = 65 ∷ [];
}

get_extra_blocks-IsExtended_example :
    IsExtended 10 0 some_job (get_extra_blocks (λ _ _. false) 5 10 some_job)
get_extra_blocks-IsExtended_example = get_extra_blocks-IsExtended (λ _ _. false) 5 10 some_job

remove_article-IsReported_example :
    IsReported strict some_job 11 (remove_article strict (λ o. o) 21 false some_job)
remove_article-IsReported_example =
    remove_article-IsReported strict (λ o. o) 21 false some_job (refl, tt) (λ o d. d) (λ o i. refl)

get_articles-IsFetched_example :
    IsFetched block_account 2
      (get_articles (λ _. []) (λ _. true) block_account all_servers 2 ([], some_job))
get_articles-IsFetched_example =
    get_articles-IsFetched (λ _. []) (λ _. true) block_account all_servers 2 some_job (omega arith)

abbrev four_files : List ℕ
four_files = 1 ∷ 2 ∷ 3 ∷ 4 ∷ []

up_test : move_up_bulk four_files (4 ∷ 2 ∷ 3 ∷ []) four_files ≡ 2 ∷ 3 ∷ 4 ∷ 1 ∷ []
unfolding move_up_bulk
up_test = refl

down_test : move_down_bulk four_files (1 ∷ 3 ∷ []) four_files ≡ 2 ∷ 1 ∷ 4 ∷ 3 ∷ []
unfolding move_down_bulk
down_test = refl

count-move_up_bulk_example :
    count 3 (move_up_bulk four_files (4 ∷ 2 ∷ 9 ∷ []) four_files) ≡ count 3 four_files
count-move_up_bulk_example = count-move_up_bulk four_files (4 ∷ 2 ∷ 9 ∷ []) four_files 3
