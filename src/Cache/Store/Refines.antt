-- ===== src/Cache/Store/Refines.antt =====
-- sabnzbd/articlecache.py: the operations of the cache keep the contract of the store.
use sabnzbd.Prelude.{refl, []}
use sabnzbd.Cache.{World, Cache, flush_cache, change_direct_write, new_limit}
use sabnzbd.Cache.Store.{
  contents, Op, run, Allowed, Contract, save, load, purge, limit, direct, force, flush,
}
use sabnzbd.Cache.Store.Entries.{IsStore}
use sabnzbd.Cache.Store.Taking.{load_article-IsWithout, purge_articles-contents}
use sabnzbd.Cache.Store.Flushing.{flush_articles-KeptIn, flush_files-contents, save_article-Saved}

-- In a cache that holds nothing twice and names all its files, every operation refines the store. A
-- save of an article that the store does not hold adds its data, or drops it when the job is done or
-- the data went to the article's file; a load returns the data of the article and removes it; a purge
-- removes the data of its articles; a flush keeps all data that did not go to the article's file; a
-- new limit, a change of direct write and a forced flush change nothing. The cache stays such a cache.
pub run-Contract :
    (w : World) (op : Op) (c : Cache)
    → IsStore c
    → Allowed op (contents c)
    → IsStore (run w op c).1 × Contract w op (contents c) (run w op c).0 (contents (run w op c).1)
unfolding run change_direct_write new_limit flush_cache
run-Contract w (save a bytes) c h new = save_article-Saved w a bytes c h new
run-Contract w (load a) c h _ =
    let (same, (valid, rest)) = load_article-IsWithout a c h in (valid, (same, rest))
run-Contract w (purge articles) c h _ = purge_articles-contents articles c h
run-Contract w (limit n) c h _ =
    (record { table = h.table; files = h.files; named = h.named; apart = h.apart }, λ b. refl)
run-Contract w (direct b) c h _ =
    (record { table = h.table; files = h.files; named = h.named; apart = h.apart }, λ a. refl)
run-Contract w force c h _ = flush_files-contents w [] c.article_table c h
run-Contract w flush c h _ = flush_articles-KeptIn w c h
