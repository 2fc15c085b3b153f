-- ===== src/Article/Tests.antt =====
-- sabnzbd/nzb/article.py: an article that three servers could deliver, and the theorems at work on it.
use sabnzbd.Prelude.{◌≡◌, refl, true, false, none, some, List, [], ◌∷◌, arith}
use sabnzbd.Article.{Server, Article, higher_server, get_article, search_new_server}
use sabnzbd.Article.Retry.{IsRetried, search_new_server-IsRetried}
use sabnzbd.Article.Priority.{IsSorted, IsWaiting, IsAssigned, get_article-IsAssigned}

abbrev pub main : Server
main = record { id = 1; priority = 0; active = true }

abbrev spare : Server
spare = record { id = 2; priority = 0; active = false }

abbrev pub block_account : Server
block_account = record { id = 3; priority = 5; active = true }

abbrev pub all_servers : List Server
all_servers = main ∷ spare ∷ block_account ∷ []

-- The main server was tried without success.
abbrev pub missing : Article
missing = record {
  bytes = 700;
  lowest_partnum = false;
  try_list = 1 ∷ [];
  fetcher = none;
  fetcher_priority = 0;
  tries = 0;
  decoded = false;
  on_disk = false;
  data_begin = 0;
  data_size = none;
  decoded_size = none;
}

all_servers-IsSorted : IsSorted all_servers
all_servers-IsSorted = ((omega arith, (omega arith, tt)), ((omega arith, tt), (tt, tt)))

missing-IsWaiting : IsWaiting all_servers missing
missing-IsWaiting = (refl, (refl, (refl, tt)))

get_article-IsAssigned_example :
    IsAssigned block_account all_servers missing (get_article block_account all_servers missing).1
unfolding get_article higher_server
get_article-IsAssigned_example =
    get_article-IsAssigned block_account all_servers missing all_servers-IsSorted missing-IsWaiting
      given
  where
    given : (get_article block_account all_servers missing).0 ≡ true
    given = refl

-- The block account fetches it.
abbrev fetched : Article
fetched = record missing { fetcher = some 3; fetcher_priority = 5; tries = 1 }

fetched-IsWaiting : IsWaiting all_servers fetched
fetched-IsWaiting = (refl, (refl, (refl, tt)))

search_new_server-IsRetried_example :
    IsRetried all_servers fetched (search_new_server block_account all_servers fetched)
search_new_server-IsRetried_example =
    search_new_server-IsRetried block_account all_servers fetched refl refl refl fetched-IsWaiting
