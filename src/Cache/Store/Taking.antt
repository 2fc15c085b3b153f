-- ===== src/Cache/Store/Taking.antt =====
-- sabnzbd/articlecache.py: data leaves the store, by `load_article` and `purge_articles`.
use sabnzbd.Prelude.{
  both, ℕ, ◌≡◌, refl, sym, subst, ◌∙◌, Bool, true, false, ◌||◌, inl, inr, ◌==◌, if◌then◌else◌,
  if_ind, Option, none, some, List, [], ◌∷◌, length, contains, arith, Bool-cases, ==_iff,
}
use sabnzbd.Prelude.Dict
use sabnzbd.Prelude.Dict.{Dict}
use sabnzbd.Cache.{
  Data, Cache, unregister, pop_article, free_reserved_space, load_article, purge_article,
  purge_articles,
}
use sabnzbd.Cache.Store.{first_of, contents}
use sabnzbd.Cache.Store.Entries.{IsStore}

-- The store without the data of one article.
abbrev pub IsWithout : ℕ → Cache → Cache → Type 0
IsWithout a c r = IsStore r × ((b : ℕ) → contents r b ≡ (if a == b then none else contents c b))

pop-IsWithout :
    (a : ℕ) (c : Cache)
    → Dict.has a c.article_table ≡ true
    → IsStore c
    → ((pop_article a c).0 ≡ contents c a) × IsWithout a c (pop_article a c).1
unfolding pop_article free_reserved_space
pop-IsWithout a c there v =
    let popped : Option Data → Option Data × Cache = λ o. elim o [
      | none ↦ (none, c)
      | some d ↦ (
        some d,
        free_reserved_space (length d) (record c { article_table = Dict.remove a c.article_table }),
      )
    ] in
    let (bytes, found, _) = Dict.total-remove length a c.article_table there in
    subst (λ o. ((popped o).0 ≡ first_of o (Dict.get a c.disk)) × IsWithout a c (popped o).1)
      (sym found)
      (
        refl,
        (
          record {
            table = Dict.remove-IsDict a c.article_table v.table;
            files = v.files;
            named = v.named;
            apart = λ b h. v.apart b (Dict.has-remove a b c.article_table v.table h);
          },
          λ b. rw (Dict.get-remove a b c.article_table v.table) (rest b),
        ),
      )
  where
    gone : (b : ℕ) → (a == b) ≡ true → Dict.get b c.disk ≡ none
    gone b e =
        subst (λ i. Dict.get i c.disk ≡ none) ((==_iff a b).0 e)
          (Dict.get-absent a c.disk (v.apart a there))

    rest :
        (b : ℕ)
        → first_of (if a == b then none else Dict.get b c.article_table) (Dict.get b c.disk)
          ≡ (if a == b then none else contents c b)
    rest b = elim (Bool-cases (a == b)) [ inl e ↦ rw e (gone b e) | inr e ↦ rw e refl ]

erase-IsWithout :
    (a : ℕ) (c : Cache)
    → Dict.has a c.article_table ≡ false
    → IsStore c
    → IsWithout a c (record c { disk = Dict.remove a c.disk })
erase-IsWithout a c absent v = (
  record {
    table = v.table;
    files = Dict.remove-IsDict a c.disk v.files;
    named = λ b h. v.named b (Dict.has-remove a b c.disk v.files h);
    apart = λ b h. Dict.absent-remove a b c.disk v.files (v.apart b h);
  },
  λ b. rw (Dict.get-remove a b c.disk v.files) (rest b),
)
  where
    rest :
        (b : ℕ)
        → first_of (Dict.get b c.article_table) (if a == b then none else Dict.get b c.disk)
          ≡ (if a == b then none else contents c b)
    rest b = elim (Bool-cases (a == b)) [
      | inl e ↦ rw e (
          subst (λ i. first_of (Dict.get i c.article_table) none ≡ none) ((==_iff a b).0 e)
            (rw (Dict.get-absent a c.article_table absent) refl))
      | inr e ↦ rw e refl
    ]

-- An article without a name is not in the store.
contents-none :
    (a : ℕ) (c : Cache)
    → Dict.has a c.article_table ≡ false
    → contains a c.art_ids ≡ false
    → IsStore c
    → contents c a ≡ none
contents-none a c absent unnamed v =
    rw (Dict.get-absent a c.article_table absent) (Dict.get-absent a c.disk out)
  where
    out : Dict.has a c.disk ≡ false
    out = elim (Bool-cases (Dict.has a c.disk)) [
      | inl e ↦ absurd (both (v.named a e) unnamed)
      | inr e ↦ e
    ]

same-IsWithout : (a : ℕ) (c : Cache) → contents c a ≡ none → IsStore c → IsWithout a c c
same-IsWithout a c new v = (
  v,
  λ b. elim (Bool-cases (a == b)) [
    | inl e ↦ rw e (subst (λ i. contents c i ≡ none) ((==_iff a b).0 e) new)
    | inr e ↦ rw e refl
  ],
)

unregister-IsWithout : (a b : ℕ) (c r : Cache) → IsWithout a c r → IsWithout a c (unregister b r)
unregister-IsWithout a b c r (v, h) =
    (record { table = v.table; files = v.files; named = v.named; apart = v.apart }, h)

pub load_article-IsWithout :
    (a : ℕ) (c : Cache)
    → IsStore c
    → ((load_article a c).0 ≡ contents c a) × IsWithout a c (load_article a c).1
unfolding load_article
load_article-IsWithout a c v =
    if_ind (λ (r : Option Data × Cache). (r.0 ≡ contents c a) × IsWithout a c r.1)
      (Dict.has a c.article_table)
      (λ there.
        let (same, h) = pop-IsWithout a c there v in
        (same, unregister-IsWithout a a c (pop_article a c).1 h))
      (λ absent.
        if_ind (λ (r : Option Data × Cache). (r.0 ≡ contents c a) × IsWithout a c r.1)
          (contains a c.art_ids)
          (λ _. (
            rw (Dict.get-absent a c.article_table absent) refl,
            unregister-IsWithout a a c (record c { disk = Dict.remove a c.disk })
                (erase-IsWithout a c absent v),
          ))
          (λ unnamed.
            let new = contents-none a c absent unnamed v in
            (sym new, unregister-IsWithout a a c c (same-IsWithout a c new v))))

pub purge_article-IsWithout : (a : ℕ) (c : Cache) → IsStore c → IsWithout a c (purge_article a c)
unfolding purge_article
purge_article-IsWithout a c v =
    if_ind (IsWithout a c) (Dict.has a c.article_table) (λ there. (pop-IsWithout a c there v).1)
      (λ absent.
        if_ind (IsWithout a c) (contains a c.art_ids) (λ _. erase-IsWithout a c absent v)
          (λ unnamed. same-IsWithout a c (contents-none a c absent unnamed v) v))

pub purge_articles-contents :
    (articles : List ℕ) (c : Cache)
    → IsStore c
    → IsStore (purge_articles articles c)
      × ((b : ℕ)
          → contents (purge_articles articles c) b
            ≡ (if contains b articles then none else contents c b))
unfolding purge_articles
purge_articles-contents [] c v = (v, λ b. refl)
purge_articles-contents (a ∷ rest) c v =
    let (v', one) = purge_article-IsWithout a c v in
    let (v'', all) = purge_articles-contents rest (purge_article a c) v' in
    (v'', λ b. all b ∙ join b (contents (purge_article a c) b) (one b))
  where
    join :
        (b : ℕ) (o : Option Data)
        → o ≡ (if a == b then none else contents c b)
        → (if contains b rest then none else o)
          ≡ (if contains b (a ∷ rest) then none else contents c b)
    join b o h = rw h (either (a == b) (contains b rest))
      where
        either :
            (x y : Bool)
            → (if y then none else if x then none else contents c b)
              ≡ (if x || y then none else contents c b)
        either x y = ground arith
