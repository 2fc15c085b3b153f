-- ===== src/File/Import.antt =====
-- sabnzbd/nzb/file.py: the import of the articles of a file.
use sabnzbd.Prelude.{
  ℕ, ◌≡◌, refl, ap, sym, append-nil, ◌∙◌, true, false, not, ◌||◌, inl, inr, ◌==◌, if◌then◌else◌,
  List, [], ◌∷◌, ◌++◌, arith, Bool-cases, ==_iff, ==_refl, or_false,
}
use sabnzbd.Job.{is_nil}
use sabnzbd.Article.{Article}
use sabnzbd.File.{
  NzbFile, RawArticles, add_article, add_articles, finish_import, mark_lowest, set_article,
}
use sabnzbd.File.Bytes.{
  has_entry, IsNew, IsValid, IsNew-add, add_articles-IsValid, mark_lowest-IsValid,
}

abbrev pub entries : RawArticles → List ℕ
entries [] = []
entries ((id, _) ∷ rest) = id ∷ entries rest

-- Each article of an entry has its size.
abbrev pub HasSizes : RawArticles → (ℕ → Article) → Type 0
HasSizes [] store = Unit
HasSizes ((id, size) ∷ rest) store = ((store id).bytes ≡ size) × HasSizes rest store

-- The file `f` after the import of the entries: all are listed, in their order, behind the articles
-- that were there, with their sizes; and if there is an entry, the import is finished.
pub record IsImported (raw : RawArticles) (f f' : NzbFile) : Type 0 where
  pub articles : f'.articles ≡ f.articles ++ entries raw
  pub decodetable : f'.decodetable ≡ f.decodetable ++ entries raw
  pub sizes : HasSizes raw f'.store
  pub same_bytes : f'.bytes_left ≡ f.bytes_left
  pub finished : f'.import_finished ≡ (not (is_nil raw) || f.import_finished)
  pub valid : IsValid [] f'

append-cons : (xs : List ℕ) (y : ℕ) (ys : List ℕ) → (xs ++ y ∷ []) ++ ys ≡ xs ++ y ∷ ys
append-cons [] y ys = refl
append-cons (x ∷ xs) y ys = ap (λ l. x ∷ l) (append-cons xs y ys)

-- The articles of other entries keep their size.
add_articles-others :
    (id : ℕ) (raw : RawArticles) (f : NzbFile)
    → has_entry id raw ≡ false
    → ((add_articles raw f).store id).bytes ≡ (f.store id).bytes
unfolding add_articles add_article
add_articles-others id [] f out = refl
add_articles-others id ((j, size) ∷ rest) f out =
    let (other, later) = or_false (j == id) (has_entry id rest) out in
    add_articles-others id rest (add_article (j, size) f) later ∙ here other
  where
    flip : (j == id) ≡ false → (id == j) ≡ false
    flip e = ground arith

    here : (j == id) ≡ false → ((add_article (j, size) f).store id).bytes ≡ (f.store id).bytes
    here e = rw (flip e) refl

add_articles-IsImported :
    (raw : RawArticles) (f : NzbFile)
    → IsNew f.articles raw
    → ((add_articles raw f).articles ≡ f.articles ++ entries raw)
      × ((add_articles raw f).decodetable ≡ f.decodetable ++ entries raw)
      × HasSizes raw (add_articles raw f).store
      × ((add_articles raw f).bytes_left ≡ f.bytes_left)
unfolding add_articles add_article
add_articles-IsImported [] f n =
    (sym (append-nil f.articles), sym (append-nil f.decodetable), tt, refl)
add_articles-IsImported ((id, size) ∷ rest) f n =
    let f1 = add_article (id, size) f in
    let (articles, decodetable, sizes, left) =
      add_articles-IsImported rest f1 (rw n.0 (IsNew-add id f.articles rest n.2 n.1)) in
    (
      articles ∙ ap (λ l. l ++ entries rest) one_more ∙ append-cons f.articles id (entries rest),
      decodetable ∙ append-cons f.decodetable id (entries rest),
      (add_articles-others id rest f1 n.1 ∙ own, sizes),
      left,
    )
  where
    one_more : (add_article (id, size) f).articles ≡ f.articles ++ id ∷ []
    one_more = rw n.0 refl

    own : ((add_article (id, size) f).store id).bytes ≡ size
    own = rw (==_refl id) refl

-- What the mark of the first article leaves alone.
record Same (f f' : NzbFile) : Type 0 where
  articles : f'.articles ≡ f.articles
  decodetable : f'.decodetable ≡ f.decodetable
  bytes_left : f'.bytes_left ≡ f.bytes_left
  sizes : (i : ℕ) → (f'.store i).bytes ≡ (f.store i).bytes

mark_lowest-Same : (f : NzbFile) → Same f (mark_lowest f)
mark_lowest-Same f = go f.decodetable
  where
    size :
        (x i : ℕ)
        → (if i == x then record (f.store x) { lowest_partnum = true } else f.store i).bytes
          ≡ (f.store i).bytes
    size x i = elim (Bool-cases (i == x)) [
      | inl e ↦ rw e (ap (λ j. (f.store j).bytes) (sym ((==_iff i x).0 e)))
      | inr e ↦ rw e refl
    ]

    go :
        (xs : List ℕ)
        → Same f (elim xs [
          | [] ↦ f
          | first ∷ _ ↦ set_article first (record (f.store first) { lowest_partnum = true }) f
        ])
    go [] = record { articles = refl; decodetable = refl; bytes_left = refl; sizes = λ i. refl }
    go (x ∷ xs) = record { articles = refl; decodetable = refl; bytes_left = refl; sizes = size x }

HasSizes-same :
    (raw : RawArticles) (s t : ℕ → Article)
    → ((i : ℕ) → (t i).bytes ≡ (s i).bytes)
    → HasSizes raw s
    → HasSizes raw t
HasSizes-same [] s t same h = tt
HasSizes-same ((id, size) ∷ rest) s t same h = (same id ∙ h.0, HasSizes-same rest s t same h.1)

-- When a file is imported, its entries become articles: if those are new and, with the articles that
-- are there, not more than the bytes left, then all are listed in their order behind the articles that
-- were there, with their sizes; no article is listed twice, and the listed ones are not more than the
-- bytes left, which are as before; and the import is finished if there is an entry.
pub finish_import-IsImported :
    (raw : RawArticles) (f : NzbFile)
    → IsNew f.articles raw
    → IsValid raw f
    → IsImported raw f (finish_import raw f)
unfolding finish_import
finish_import-IsImported [] f n v = record {
  articles = sym (append-nil f.articles);
  decodetable = sym (append-nil f.decodetable);
  sizes = tt;
  same_bytes = refl;
  finished = refl;
  valid = v;
}
finish_import-IsImported (entry ∷ rest) f n v =
    let added = add_articles (entry ∷ rest) f in
    let valid = mark_lowest-IsValid added (add_articles-IsValid (entry ∷ rest) f n v) in
    let (articles, decodetable, sizes, left) = add_articles-IsImported (entry ∷ rest) f n in
    let m = mark_lowest-Same added in
    record {
      articles = m.articles ∙ articles;
      decodetable = m.decodetable ∙ decodetable;
      sizes = HasSizes-same (entry ∷ rest) added.store (mark_lowest added).store m.sizes sizes;
      same_bytes = m.bytes_left ∙ left;
      finished = refl;
      valid = record { distinct = valid.distinct; left = valid.left };
    }
