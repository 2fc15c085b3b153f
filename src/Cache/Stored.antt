-- ===== src/Cache/Stored.antt =====
-- sabnzbd/articlecache.py: the disk cache during a flush.
use sabnzbd.Prelude.{
  ℕ, zero, suc, ◌≡◌, Bool, true, not, ◌&&◌, ◌||◌, ◌==◌, if◌then◌else◌, if_ind, Option, none, some,
  List, [], ◌∷◌, ◌++◌, length, contains, contains-add_key, pos, arith,
}
use sabnzbd.Prelude.Dict
use sabnzbd.Prelude.Dict.{Dict}
use sabnzbd.Cache.{
  Data, World, Cache, IsValid, flush_article_to_disk, flush_next, flush_loop, flush_articles,
  flush_files, flush_cache,
}
use sabnzbd.Cache.Flush.{flush_articles-Flushed}

-- What is on disk has a name, and no name twice.
record IsStored (c : Cache) : Type 0 where
  files : Dict.IsDict c.disk
  named : (a : ℕ) → Dict.has a c.disk ≡ true → contains a c.art_ids ≡ true

flush-IsStored :
    (w : World) (a : ℕ) (bytes : Data) (c : Cache)
    → IsStored c
    → IsStored (flush_article_to_disk w a bytes c)
unfolding flush_article_to_disk
flush-IsStored w a bytes c v =
    if_ind IsStored (c.direct_write && w.assemble_article a bytes)
      (λ _. record { files = v.files; named = v.named })
      (λ _. record {
        files = Dict.put-IsDict a bytes c.disk v.files;
        named = λ b h.
            step b (Dict.has-put a b bytes c.disk) (contains-add_key b a c.art_ids) (v.named b) h;
      })
  where
    step :
        {on_disk name on_disk' name' : Bool} (b : ℕ)
        → on_disk' ≡ ((a == b) || on_disk)
        → name' ≡ ((a == b) || name)
        → (on_disk ≡ true → name ≡ true)
        → on_disk' ≡ true
        → name' ≡ true
    step b e k old h = ground arith

flush_loop-IsStored : (w : World) (n : ℕ) (c : Cache) → IsStored c → IsStored (flush_loop w n c)
unfolding flush_loop flush_next
flush_loop-IsStored w zero c v = v
flush_loop-IsStored w (suc n) c v =
    go (λ c' v'. flush_loop-IsStored w n c' v') (Dict.pop_item c.article_table)
  where
    go :
        ((c' : Cache) → IsStored c' → IsStored (flush_loop w n c'))
        → (o : Option ((ℕ × Data) × Dict Data))
        → IsStored (flush_next w (λ c'. flush_loop w n c') c o)
    go ih none = v
    go ih (some ((a, bytes), rest)) =
        ih (flush_article_to_disk w a bytes (record c { article_table = rest })) (
          flush-IsStored w a bytes (record c { article_table = rest })
            (record { files = v.files; named = v.named }))

pub flush_articles-IsValid : (w : World) (c : Cache) → IsValid c → IsValid (flush_articles w c)
unfolding flush_articles
flush_articles-IsValid w c v =
    let r = flush_loop w (length c.article_table) (record c { cache_size = pos 0 }) in
    let stored =
      flush_loop-IsStored w (length c.article_table) (record c { cache_size = pos 0 })
        (record { files = v.files; named = v.named }) in
    let flushed = flush_articles-Flushed w c v.table in
    record {
      table = rw flushed.empty tt;
      files = stored.files;
      named = stored.named;
      size = rw flushed.empty flushed.size;
    }

flush_files-IsValid :
    (w : World) (forced : List ℕ) (d : Dict Data) (c : Cache)
    → IsValid c
    → IsValid (flush_files w forced d c)
unfolding flush_files
flush_files-IsValid w forced [] c v = v
flush_files-IsValid w forced ((a, bytes) ∷ rest) c v =
    let skip = not (w.article a).can_direct_write || contains (w.article a).nzf forced in
    flush_files-IsValid w (if skip then forced else (w.article a).nzf ∷ forced) rest
      (if skip then c else record c { requests = c.requests ++ a ∷ [] })
      (if_ind IsValid skip (λ _. v)
        (λ _. record { table = v.table; files = v.files; named = v.named; size = v.size }))

pub flush_cache-IsValid : (w : World) (c : Cache) → IsValid c → IsValid (flush_cache w c)
unfolding flush_cache
flush_cache-IsValid w c v = flush_files-IsValid w [] c.article_table c v
