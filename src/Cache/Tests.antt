-- ===== src/Cache/Tests.antt =====
-- sabnzbd/articlecache.py: a small cache, and the theorems of the cache at work on it.
use sabnzbd.Prelude.{◌≡◌, refl, true, false, ◌==◌, some, [], ◌∷◌, pos, negsuc, ◌≤ℤ◌, arith}
use sabnzbd.Cache.{
  Article, World, Cache, IsValid, new_limit, save_article, load_article, flush_articles,
}
use sabnzbd.Cache.Accounting.{save_article-le_limit}
use sabnzbd.Cache.Store.{contents, Contract, run, load}
use sabnzbd.Cache.Store.Entries.{IsStore}
use sabnzbd.Cache.Store.Refines.{run-Contract}
use sabnzbd.Cache.Reach.{here, next, limited, saved, loaded, flushed, Reach-IsValid}
use sabnzbd.Cache.RoundTrip.{load-save}
use sabnzbd.Cache.Flush.{Flushed, flush_articles-Flushed}

abbrev first_article : Article
first_article = record {
  lowest_partnum = true;
  import_finished = true;
  filename_checked = true;
  pp_or_finished = false;
  can_direct_write = true;
  nzf = 1;
}

-- Article 8 is written to its file directly, the others are not.
abbrev one_file : World
one_file = record {
  article = λ _. first_article;
  assemble_article = λ a _. a == 8;
  no_active_jobs = false;
}

-- Two articles in memory, one on disk.
abbrev some_cache : Cache
some_cache = record {
  shutdown = false;
  direct_write = true;
  cache_limit_org = pos 10;
  cache_limit = 10;
  cache_upper_limit = 100;
  cache_size = pos 5;
  article_table = (1, 65 ∷ 66 ∷ []) ∷ (2, 67 ∷ 68 ∷ 69 ∷ []) ∷ [];
  disk = (3, 70 ∷ []) ∷ [];
  art_ids = 3 ∷ [];
  saved_articles = 1 ∷ 2 ∷ 3 ∷ [];
  requests = [];
}

some_cache-IsValid : IsValid some_cache
some_cache-IsValid = record {
  table = (refl, (refl, tt));
  files = (refl, tt);
  named = λ a h. ground arith;
  size = refl;
}

abbrev limited_cache : Cache
unfolding new_limit
limited_cache = new_limit (negsuc 0) some_cache

Reach-IsValid_example :
    IsValid
      (flush_articles one_file (load_article 1 (save_article one_file 8 (73 ∷ []) limited_cache)).1)
unfolding new_limit
Reach-IsValid_example =
    Reach-IsValid one_file some_cache
      (flush_articles one_file (load_article 1 (save_article one_file 8 (73 ∷ []) limited_cache)).1)
      (next
        (next
          (next (next here (limited some_cache (negsuc 0))) (saved limited_cache 8 (73 ∷ []) refl))
          (loaded (save_article one_file 8 (73 ∷ []) limited_cache) 1))
        (flushed (load_article 1 (save_article one_file 8 (73 ∷ []) limited_cache)).1))
      some_cache-IsValid

save_article-le_limit_example :
    (save_article one_file 4 (71 ∷ 72 ∷ []) some_cache).cache_size
    ≤ℤ pos (save_article one_file 4 (71 ∷ 72 ∷ []) some_cache).cache_limit
save_article-le_limit_example =
    save_article-le_limit one_file 4 (71 ∷ 72 ∷ []) some_cache (omega arith)

load-save_example :
    (load_article 4 (save_article one_file 4 (71 ∷ 72 ∷ []) some_cache)).0 ≡ some (71 ∷ 72 ∷ [])
load-save_example = load-save one_file 4 (71 ∷ 72 ∷ []) some_cache refl refl refl

flush_articles-Flushed_example :
    Flushed one_file some_cache.article_table
      (record some_cache { cache_size = pos 0 })
      (flush_articles one_file some_cache)
flush_articles-Flushed_example = flush_articles-Flushed one_file some_cache (refl, (refl, tt))

some_cache-IsStore : IsStore some_cache
some_cache-IsStore = record {
  table = (refl, (refl, tt));
  files = (refl, tt);
  named = λ a h. ground arith;
  apart = λ a h. ground arith;
}

run-Contract_example :
    IsStore (run one_file (load 2) some_cache).1
    × Contract one_file
        (load 2)
        (contents some_cache)
        (run one_file (load 2) some_cache).0
        (contents (run one_file (load 2) some_cache).1)
run-Contract_example = run-Contract one_file (load 2) some_cache some_cache-IsStore tt
