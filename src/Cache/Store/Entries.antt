-- ===== src/Cache/Store/Entries.antt =====
-- sabnzbd/articlecache.py: the entries of the store, and new data in memory or on disk.
use sabnzbd.Prelude.{
  both, ℕ, ◌≡◌, refl, subst, ◌∙◌, Bool, true, false, ◌&&◌, ◌||◌, ◌⊎◌, inl, inr, ◌==◌, if◌then◌else◌,
  if_ind, Option, none, some, contains, contains-add_key, arith, Bool-cases, ==_iff,
}
use sabnzbd.Prelude.Dict
use sabnzbd.Prelude.Dict.{Dict}
use sabnzbd.Cache.{Data, World, Cache, flush_article_to_disk}
use sabnzbd.Cache.Store.{first_of, contents}

-- Nothing is held twice, and all on disk has a name.
pub record IsStore (c : Cache) : Type 0 where
  pub table : Dict.IsDict c.article_table
  pub files : Dict.IsDict c.disk
  pub named : (a : ℕ) → Dict.has a c.disk ≡ true → contains a c.art_ids ≡ true
  pub apart : (a : ℕ) → Dict.has a c.article_table ≡ true → Dict.has a c.disk ≡ false

pub first_of-none : (o p : Option Data) → first_of o p ≡ none → (o ≡ none) × (p ≡ none)
first_of-none none p h = (refl, h)
first_of-none (some a) p h = absurd (cc)

-- New data in memory.
pub in_memory-IsStore :
    (a : ℕ) (bytes : Data) (c : Cache)
    → IsStore c
    → contents c a ≡ none
    → IsStore (record c { article_table = Dict.put a bytes c.article_table })
      × ((b : ℕ)
          → contents (record c { article_table = Dict.put a bytes c.article_table }) b
            ≡ (if a == b then some bytes else contents c b))
in_memory-IsStore a bytes c v new = (
  record {
    table = Dict.put-IsDict a bytes c.article_table v.table;
    files = v.files;
    named = v.named;
    apart = λ b h. apart b (Dict.has-put a b bytes c.article_table) h;
  },
  λ b. step b,
)
  where
    free : Dict.has a c.disk ≡ false
    free =
        Dict.has-get a c.disk (first_of-none (Dict.get a c.article_table) (Dict.get a c.disk) new).1

    apart :
        (b : ℕ)
        → Dict.has b (Dict.put a bytes c.article_table) ≡ ((a == b) || Dict.has b c.article_table)
        → Dict.has b (Dict.put a bytes c.article_table) ≡ true
        → Dict.has b c.disk ≡ false
    apart b split h = elim (Bool-cases (a == b)) [
      | inl e ↦ subst (λ i. Dict.has i c.disk ≡ false) ((==_iff a b).0 e) free
      | inr e ↦ v.apart b (rest e)
    ]
      where
        rest : (a == b) ≡ false → Dict.has b c.article_table ≡ true
        rest e = ground (arith, split, h)

    step :
        (b : ℕ)
        → first_of (Dict.get b (Dict.put a bytes c.article_table)) (Dict.get b c.disk)
          ≡ (if a == b then some bytes else contents c b)
    step b =
        rw (Dict.get-put a b bytes c.article_table)
          (elim (Bool-cases (a == b)) [ inl e ↦ rw e refl | inr e ↦ rw e refl ])

-- New data on its way to disk.
pub on_disk-IsStore :
    (w : World) (a : ℕ) (bytes : Data) (c : Cache)
    → IsStore c
    → contents c a ≡ none
    → IsStore (flush_article_to_disk w a bytes c)
      × (((b : ℕ)
            → contents (flush_article_to_disk w a bytes c) b
              ≡ (if a == b then some bytes else contents c b))
          ⊎ (((b : ℕ) → contents (flush_article_to_disk w a bytes c) b ≡ contents c b)
              × (w.assemble_article a bytes ≡ true)))
unfolding flush_article_to_disk
on_disk-IsStore w a bytes c v new =
    if_ind
      (λ (r : Cache).
        IsStore r
        × (((b : ℕ) → contents r b ≡ (if a == b then some bytes else contents c b))
            ⊎ (((b : ℕ) → contents r b ≡ contents c b) × (w.assemble_article a bytes ≡ true))))
      (c.direct_write && w.assemble_article a bytes)
      (λ written. (
        record { table = v.table; files = v.files; named = v.named; apart = v.apart },
        inr (λ b. refl, second written),
      ))
      (λ _. (
        record {
          table = v.table;
          files = Dict.put-IsDict a bytes c.disk v.files;
          named = λ b h.
              named b (Dict.has-put a b bytes c.disk) (contains-add_key b a c.art_ids) (v.named b)
                h;
          apart = λ b h. apart b h;
        },
        inl (λ b. step b),
      ))
  where
    free : Dict.get a c.article_table ≡ none
    free = (first_of-none (Dict.get a c.article_table) (Dict.get a c.disk) new).0

    second :
        (c.direct_write && w.assemble_article a bytes) ≡ true → w.assemble_article a bytes ≡ true
    second h = ground arith

    named :
        {on_disk name on_disk' name' : Bool} (b : ℕ)
        → on_disk' ≡ ((a == b) || on_disk)
        → name' ≡ ((a == b) || name)
        → (on_disk ≡ true → name ≡ true)
        → on_disk' ≡ true
        → name' ≡ true
    named b e k old h = ground arith

    apart :
        (b : ℕ) → Dict.has b c.article_table ≡ true → Dict.has b (Dict.put a bytes c.disk) ≡ false
    apart b h = Dict.has-put a b bytes c.disk ∙ elim (Bool-cases (a == b)) [
      | inl e ↦ absurd (
          both h (
            subst (λ i. Dict.has i c.article_table ≡ false) ((==_iff a b).0 e)
              (Dict.has-get a c.article_table free)))
      | inr e ↦ rw e (v.apart b h)
    ]

    step :
        (b : ℕ)
        → first_of (Dict.get b c.article_table) (Dict.get b (Dict.put a bytes c.disk))
          ≡ (if a == b then some bytes else contents c b)
    step b = rw (Dict.get-put a b bytes c.disk) (elim (Bool-cases (a == b)) [
      | inl e ↦ rw e (
          subst (λ i. first_of (Dict.get i c.article_table) (some bytes) ≡ some bytes)
            ((==_iff a b).0 e) (rw free refl))
      | inr e ↦ rw e refl
    ])
