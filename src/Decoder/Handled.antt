-- ===== src/Decoder/Handled.antt =====
-- sabnzbd/decoder.py: every answer is registered once, or the article is fetched again.
use sabnzbd.Prelude.{
  ℕ, ◌+◌, ◌≡◌, refl, ap, sym, subst, ◌∙◌, Bool, true, false, not, ◌&&◌, ◌||◌, ◌⊎◌, inl, inr, ◌==◌,
  if_ind, if◌then◌else◌, [], ◌∷◌, ◌++◌, arith,
}
use sabnzbd.Job.{is_nil}
use sabnzbd.Decoder.{
  Data, World, NntpResponse, Article, Attempt, decoded_data, bad_data, bad_yenc, bad_uu,
  out_of_memory, unknown_error, attempt, search_new_server, read_lines, finish, unless_found,
  handle, decode,
}
use sabnzbd.Decoder.Tried.{Same, Delivers, attempt-IsTried}

-- The article is left to be fetched again: nothing is saved or registered.
pub record IsRetried (a a' : Article) : Type 0 where
  pub again : a'.new_fetcher ≡ true
  pub saved : a'.saved ≡ a.saved
  pub registered : a'.registered ≡ a.registered
  pub bad_articles : a'.bad_articles ≡ a.bad_articles

-- The data of the answer that is kept, which is that of a failed checksum too.
abbrev pub kept_data : NntpResponse → Attempt → Data
kept_data r (decoded_data _) = r.bytes
kept_data r (bad_data _) = r.bytes
kept_data r _ = []

-- The article is good when it was decoded, or when it was found on the server.
abbrev pub is_good : World → NntpResponse → Attempt → Bool
is_good w r (decoded_data _) = true
is_good w r bad_yenc = w.precheck && r.status_code == 223 || read_lines r.lines false
is_good w r _ = false

-- The result is registered once, and one that is a failure is a bad article of the job. Data is saved in
-- the cache once, and the article is decoded; without data it is on disk, unless it is only checked.
pub record IsRegistered (w : World) (bytes : Data) (success : Bool) (a a' : Article) : Type 0 where
  pub registered : a'.registered ≡ a.registered ++ success ∷ []
  pub saved : a'.saved ≡ (if is_nil bytes then a.saved else a.saved ++ bytes ∷ [])
  pub decoded : a'.decoded ≡ (not (is_nil bytes) || a.decoded)
  pub on_disk : a'.on_disk ≡ (is_nil bytes && not w.precheck || a.on_disk)
  pub bad_articles : a'.bad_articles ≡ a.bad_articles + (if success then 0 else 1)

module _ (w : World) (r : NntpResponse) (a : Article) where
  -- The two ways that an article is handled after an attempt: it is fetched again only if it is no good
  -- and another server is found, or there was no memory.
  abbrev pub IsHandled : Attempt → Article → Type 0
  IsHandled x a' =
      (IsRetried a a' × (is_good w r x ≡ false))
      ⊎ IsRegistered w (kept_data r x) (is_good w r x) a a'

  finish-IsRegistered :
      (bytes : Data) (success : Bool) (b : Article) (n : ℕ)
      → Same a b
      → n ≡ a.bad_articles + (if success then 0 else 1)
      → IsRegistered w bytes success a (finish w bytes success (record b { bad_articles = n }))
  unfolding finish
  finish-IsRegistered [] success b n s k =
      if_ind
        (λ (x : Article).
          IsRegistered w [] success a (record x { registered = x.registered ++ success ∷ [] }))
        w.precheck
        (λ p. record {
          registered = ap (λ l. l ++ success ∷ []) s.registered;
          saved = s.saved;
          decoded = s.decoded;
          on_disk = rw p s.on_disk;
          bad_articles = k;
        })
        (λ p. record {
          registered = ap (λ l. l ++ success ∷ []) s.registered;
          saved = s.saved;
          decoded = s.decoded;
          on_disk = rw p refl;
          bad_articles = k;
        })
  finish-IsRegistered (x ∷ bytes) success b n s k = record {
    registered = ap (λ l. l ++ success ∷ []) s.registered;
    saved = ap (λ l. l ++ (x ∷ bytes) ∷ []) s.saved;
    decoded = refl;
    on_disk = s.on_disk;
    bad_articles = k;
  }

  search-IsHandled :
      (x : Attempt) (bytes : Data) (b : Article)
      → Same a b
      → is_good w r x ≡ false
      → kept_data r x ≡ bytes
      → IsHandled x (unless_found (λ y. finish w bytes false y) (search_new_server w b))
  unfolding search_new_server
  search-IsHandled x bytes b s bad kept =
      if_ind (λ (y : Bool × Article). IsHandled x (unless_found (λ z. finish w bytes false z) y))
        w.finds_new_server
        (λ _. inl (
          record {
            again = refl;
            saved = s.saved;
            registered = s.registered;
            bad_articles = s.bad_articles;
          },
          bad,
        ))
        (λ _. inr (registered (kept_data r x) kept (is_good w r x) bad))
    where
      registered :
          (d : Data)
          → d ≡ bytes
          → (g : Bool) → g ≡ false
          → IsRegistered w d g a
              (finish w bytes false (record b { bad_articles = b.bad_articles + 1 }))
      registered d e g f =
          subst
            (λ i.
              IsRegistered w i g a
                (finish w bytes false (record b { bad_articles = b.bad_articles + 1 })))
            (sym e)
            (subst
              (λ i.
                IsRegistered w bytes i a
                  (finish w bytes false (record b { bad_articles = b.bad_articles + 1 })))
              (sym f)
              (finish-IsRegistered bytes false b (b.bad_articles + 1) s
                (ap (λ n. n + 1) s.bad_articles)))

  handle-IsHandled :
      (x : Attempt) (b : Article) → Same a b → Delivers r x → IsHandled x (handle w r (x, b))
  unfolding handle
  handle-IsHandled (decoded_data bytes) b s d = inr (
      subst (λ i. IsRegistered w r.bytes true a (finish w i true b)) (sym d)
        (finish-IsRegistered r.bytes true b b.bad_articles s (s.bad_articles ∙ omega arith)))
  handle-IsHandled out_of_memory b s d = inl (
    record {
      again = refl;
      saved = s.saved;
      registered = s.registered;
      bad_articles = s.bad_articles;
    },
    refl,
  )
  handle-IsHandled (bad_data bytes) b s d = search-IsHandled (bad_data bytes) bytes b s refl (sym d)
  handle-IsHandled bad_uu b s d = search-IsHandled bad_uu [] b s refl refl
  handle-IsHandled unknown_error b s d = search-IsHandled unknown_error [] b s refl refl
  handle-IsHandled bad_yenc b s d =
      if_ind (IsHandled bad_yenc) (is_good w r bad_yenc)
        (λ good. inr (
          subst (λ g. IsRegistered w [] g a (finish w [] true b)) (sym good)
            (finish-IsRegistered [] true b b.bad_articles s (s.bad_articles ∙ omega arith))))
        (λ bad. search-IsHandled bad_yenc [] b s bad refl)

-- Whatever the answer of the server and the exceptions that its decoding raises: either the article may
-- be fetched again, and nothing of it is saved, registered or counted as bad, which happens only to one
-- that is no good; or its result is registered once, a failure as one more bad article of the job, and
-- the data of the answer, that of a failed checksum too, is saved once and the article is decoded; an
-- article without data is on disk, unless it is only checked. Good are the articles that were decoded and
-- those that were found on the server.
pub decode-IsHandled :
    (w : World) (r : NntpResponse) (a : Article) → IsHandled w r a (attempt w r a).0 (decode w r a)
unfolding decode
decode-IsHandled w r a =
    let t = attempt-IsTried w r a in
    handle-IsHandled w r a (attempt w r a).0 (attempt w r a).1 t.same t.delivers
