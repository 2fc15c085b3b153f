-- ===== src/Cache/Reach.antt =====
-- sabnzbd/articlecache.py: the operations of the cache in any order.
use sabnzbd.Prelude.{ℕ, ◌≡◌, Bool, false, List, ℤ}
use sabnzbd.Prelude.Dict
use sabnzbd.Cache.{
  Data, World, Cache, IsValid, change_direct_write, new_limit, save_article, load_article,
  purge_articles, flush_cache, flush_articles,
}
use sabnzbd.Cache.Accounting.{save_article-IsValid, load_article-IsValid, purge_articles-IsValid}
use sabnzbd.Cache.Stored.{flush_articles-IsValid, flush_cache-IsValid}

-- An operation of the cache, as other threads call it.
pub data Step (w : World) : Cache → Cache → Type 0 where
  limited : (c : Cache) (limit : ℤ) → Step w c (new_limit limit c)
  saved :
      (c : Cache) (a : ℕ) (bytes : Data)
      → Dict.has a c.article_table ≡ false
      → Step w c (save_article w a bytes c)
  loaded : (c : Cache) (a : ℕ) → Step w c (load_article a c).1
  purged : (c : Cache) (articles : List ℕ) → Step w c (purge_articles articles c)
  forced : (c : Cache) → Step w c (flush_cache w c)
  flushed : (c : Cache) → Step w c (flush_articles w c)
  switched : (c : Cache) (direct_write : Bool) → Step w c (change_direct_write direct_write c)

pub data Reach (w : World) (c : Cache) : Cache → Type 0 where
  here : Reach w c c
  next : {d e : Cache} → Reach w c d → Step w d e → Reach w c e

new_limit-IsValid : (limit : ℤ) (c : Cache) → IsValid c → IsValid (new_limit limit c)
unfolding new_limit
new_limit-IsValid limit c v = record {
  table = v.table;
  files = v.files;
  named = v.named;
  size = v.size;
}

change_direct_write-IsValid :
    (direct_write : Bool) (c : Cache) → IsValid c → IsValid (change_direct_write direct_write c)
unfolding change_direct_write
change_direct_write-IsValid direct_write c v = record {
  table = v.table;
  files = v.files;
  named = v.named;
  size = v.size;
}

Step-IsValid : (w : World) {c d : Cache} → Step w c d → IsValid c → IsValid d
Step-IsValid w (limited c limit) v = new_limit-IsValid limit c v
Step-IsValid w (saved c a bytes new) v = save_article-IsValid w a bytes c new v
Step-IsValid w (loaded c a) v = load_article-IsValid a c v
Step-IsValid w (purged c articles) v = purge_articles-IsValid articles c v
Step-IsValid w (forced c) v = flush_cache-IsValid w c v
Step-IsValid w (flushed c) v = flush_articles-IsValid w c v
Step-IsValid w (switched c direct_write) v = change_direct_write-IsValid direct_write c v

-- Whatever the order in which threads change the settings, save articles that are not cached yet,
-- load, purge, force writes and flush, a valid cache stays valid: the counted size is the number of
-- bytes in memory, and every file of the disk cache has a name.
pub Reach-IsValid : (w : World) (c d : Cache) → Reach w c d → IsValid c → IsValid d
Reach-IsValid w c d here v = v
Reach-IsValid w c d (next r s) v = Step-IsValid w s (Reach-IsValid w c _ r v)
