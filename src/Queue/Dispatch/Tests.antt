-- ===== src/Queue/Dispatch/Tests.antt =====
-- sabnzbd/nzbqueue.py: two jobs that a server asks for articles.
use sabnzbd.Prelude.{false, true, [], ◌∷◌, refl, arith, ◌==◌, if◌then◌else◌}
use sabnzbd.Article.Tests.{block_account, all_servers}
use sabnzbd.Object.Tests.{some_job}
use sabnzbd.Queue.Dispatch.{Download, get_articles, IsDispatched, get_articles-IsDispatched}

abbrev running : Download
running = record {
  paused = false;
  top_only = false;
  delay_left = λ id. if id == 1 then 60 else 0;
  load = λ _. [];
  highest = λ _. true;
  servers = all_servers;
  fetch_limit = 3;
}

get_articles-IsDispatched_example :
    IsDispatched running block_account
      (1 ∷ 2 ∷ [])
      (get_articles running block_account (1 ∷ 2 ∷ []) ([], λ _. some_job))
get_articles-IsDispatched_example =
    get_articles-IsDispatched running block_account (1 ∷ 2 ∷ []) (λ _. some_job) (refl, (refl, tt))
      (omega arith)
