-- ===== src/File/Bytes.antt =====
-- sabnzbd/nzb/file.py: the articles of a file and the bytes that are left.
use sabnzbd.Prelude.{
  ℕ, ◌+◌, ◌≡◌, refl, ap, subst, ◌∙◌, Bool, true, false, ◌||◌, inl, inr, ◌==◌, if◌then◌else◌, List,
  [], ◌∷◌, ◌++◌, contains, contains-append, snoc-Distinct, Distinct, ℤ, pos, ◌≤ℤ◌, arith,
  Bool-cases, ==_iff, ==_refl, or_false,
}
use sabnzbd.Article.{Article}
use sabnzbd.File.{
  NzbFile, RawArticles, add_article, add_articles, mark_lowest, new_article, set_article,
}

-- The bytes of the articles that are still to be fetched, and of those in the admin file.
abbrev pub total : (ℕ → Article) → List ℕ → ℕ
total store [] = 0
total store (x ∷ xs) = (store x).bytes + total store xs

abbrev pub raw_total : RawArticles → ℕ
raw_total [] = 0
raw_total ((_, size) ∷ rest) = size + raw_total rest

abbrev pub has_entry : ℕ → RawArticles → Bool
has_entry id [] = false
has_entry id ((j, _) ∷ rest) = (j == id) || has_entry id rest

-- The entries are of new articles, each once.
abbrev pub IsNew : List ℕ → RawArticles → Type 0
IsNew articles [] = Unit
IsNew articles ((id, _) ∷ rest) =
    (contains id articles ≡ false) × (has_entry id rest ≡ false) × IsNew articles rest

-- No article is listed twice, and the articles and the entries `raw` are not more than what is left.
pub record IsValid (raw : RawArticles) (f : NzbFile) : Type 0 where
  pub distinct : Distinct f.articles
  pub left : pos (total f.store f.articles + raw_total raw) ≤ℤ f.bytes_left

total-set_article :
    (store : ℕ → Article) (id : ℕ) (a : Article) (xs : List ℕ)
    → contains id xs ≡ false
    → total (λ i. if i == id then a else store i) xs ≡ total store xs
total-set_article store id a [] h = refl
total-set_article store id a (x ∷ xs) h =
    let (other, rest) = or_false (x == id) (contains id xs) h in
    rw other (ap (λ n. (store x).bytes + n) (total-set_article store id a xs rest))

total-append :
    (store : ℕ → Article) (xs ys : List ℕ)
    → total store (xs ++ ys) ≡ total store xs + total store ys
total-append store [] ys = omega arith
total-append store (x ∷ xs) ys = ground (arith, total-append store xs ys)

pub IsNew-add :
    (id : ℕ) (articles : List ℕ) (raw : RawArticles)
    → IsNew articles raw
    → has_entry id raw ≡ false
    → IsNew (articles ++ id ∷ []) raw
IsNew-add id articles [] n out = tt
IsNew-add id articles ((j, size) ∷ rest) n out =
    let (other, later) = or_false (j == id) (has_entry id rest) out in
    (
      contains-append j articles (id ∷ []) ∙ fresh n.0 other,
      n.1,
      IsNew-add id articles rest n.2 later,
    )
  where
    fresh :
        contains j articles ≡ false
        → (j == id) ≡ false
        → (contains j articles || ((id == j) || false)) ≡ false
    fresh h e = ground arith

-- An entry becomes an article.
add_article-IsValid :
    (id size : ℕ) (raw : RawArticles) (f : NzbFile)
    → contains id f.articles ≡ false
    → IsValid ((id, size) ∷ raw) f
    → IsValid raw (add_article (id, size) f)
unfolding add_article
add_article-IsValid id size raw f out v =
    let store' = (set_article id (new_article size) f).store in
    rw out (record {
      distinct = snoc-Distinct id f.articles v.distinct out;
      left =
          moved (total f.store f.articles) (total store' (id ∷ []))
            (total store' (f.articles ++ id ∷ [])) f.bytes_left
            (total-append store' f.articles (id ∷ [])
              ∙ ap (λ n. n + total store' (id ∷ []))
                  (total-set_article f.store id (new_article size) f.articles out))
            (rw (==_refl id) (omega arith)) v.left;
    })
  where
    moved :
        (listed added all : ℕ) (left : ℤ)
        → all ≡ listed + added
        → added ≡ size
        → pos (listed + (size + raw_total raw)) ≤ℤ left
        → pos (all + raw_total raw) ≤ℤ left
    moved listed added all left e k h = ground arith

pub add_articles-IsValid :
    (raw : RawArticles) (f : NzbFile)
    → IsNew f.articles raw
    → IsValid raw f
    → IsValid [] (add_articles raw f)
unfolding add_articles add_article
add_articles-IsValid [] f n v = v
add_articles-IsValid ((id, size) ∷ rest) f n v =
    add_articles-IsValid rest (add_article (id, size) f)
      (rw n.0 (IsNew-add id f.articles rest n.2 n.1)) (add_article-IsValid id size rest f n.0 v)

total-same :
    (s t : ℕ → Article) (xs : List ℕ)
    → ((i : ℕ) → (s i).bytes ≡ (t i).bytes)
    → total s xs ≡ total t xs
total-same s t [] h = refl
total-same s t (x ∷ xs) h = cc (h x, total-same s t xs h)

pub mark_lowest-IsValid : (f : NzbFile) → IsValid [] f → IsValid [] (mark_lowest f)
mark_lowest-IsValid f v = go f.decodetable
  where
    go :
        (xs : List ℕ)
        → IsValid [] (elim xs [
          | [] ↦ f
          | first ∷ _ ↦ set_article first (record (f.store first) { lowest_partnum = true }) f
        ])
    go [] = v
    go (x ∷ xs) = record {
      distinct = v.distinct;
      left =
          subst (λ n. pos (n + 0) ≤ℤ f.bytes_left)
            (total-same f.store
              (λ i. if i == x then record (f.store x) { lowest_partnum = true } else f.store i)
              f.articles
              (λ i. elim (Bool-cases (i == x)) [
                | inl e ↦ rw e (ap (λ j. (f.store j).bytes) ((==_iff i x).0 e))
                | inr e ↦ rw e refl
              ]))
            v.left;
    }
