-- ===== src/File/Tests.antt =====
-- sabnzbd/nzb/file.py: a small file, and the theorems at work on it.
use sabnzbd.Prelude.{◌≤◌, refl, true, false, none, [], ◌∷◌, length, pos, arith}
use sabnzbd.Article.Tests.{block_account, all_servers, missing}
use sabnzbd.File.{NzbFile, RawArticles, finish_import, get_articles}
use sabnzbd.File.Import.{IsImported, finish_import-IsImported}
use sabnzbd.File.Fetch.{FullOrTried, get_articles-FullOrTried}

-- Three articles of 700 bytes each, which the main server does not have.
abbrev pub three_articles : NzbFile
three_articles = record {
  articles = 21 ∷ 22 ∷ 23 ∷ [];
  decodetable = 21 ∷ 22 ∷ 23 ∷ [];
  store = λ _. missing;
  bytes = 2100;
  bytes_left = pos 2100;
  try_list = [];
  import_finished = true;
  deleted = false;
  is_par2 = false;
  setname = none;
  vol = none;
  blocks = none;
  crc32 = none;
  assembler_next_index = 0;
}

-- One article is listed, and two are in the admin file.
abbrev started_file : NzbFile
started_file = record three_articles {
  articles = 21 ∷ [];
  decodetable = 21 ∷ [];
  import_finished = false;
}

abbrev two_entries : RawArticles
two_entries = (22, 700) ∷ (23, 600) ∷ []

finish_import-IsImported_example :
    IsImported two_entries started_file (finish_import two_entries started_file)
finish_import-IsImported_example =
    finish_import-IsImported two_entries started_file (refl, refl, (refl, refl, tt))
      (record { distinct = (refl, tt); left = omega arith })

get_articles-FullOrTried_example :
    (length (get_articles block_account all_servers 2 ([], three_articles)).0 ≤ 2)
    × FullOrTried block_account all_servers 2 [] three_articles.articles
        (get_articles block_account all_servers 2 ([], three_articles))
get_articles-FullOrTried_example =
    get_articles-FullOrTried block_account all_servers 2 [] three_articles
      (refl, (refl, (refl, tt))) (omega arith)
