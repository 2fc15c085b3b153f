-- ===== src/Decoder/Tried.antt =====
-- sabnzbd/decoder.py: an attempt to decode an answer delivers its data, and leaves what is saved and registered.
use sabnzbd.Prelude.{
  ℕ, ◌≡◌, refl, ◌∙◌, ◌==◌, if_ind, if◌then◌else◌, Option, none, some, [], ◌∷◌, ◌++◌,
}
use sabnzbd.Decoder.{
  Data, World, NntpResponse, Article, Attempt, decoded_data, bad_data, Failure, memory_error,
  value_error, other_error, verify_name, checked, set_crc, hash_first, decode_yenc, decode_uu,
  raise, attempt, yenc, uu,
}

-- What an attempt leaves alone.
pub record Same (a b : Article) : Type 0 where
  pub saved : b.saved ≡ a.saved
  pub registered : b.registered ≡ a.registered
  pub bad_articles : b.bad_articles ≡ a.bad_articles
  pub decoded : b.decoded ≡ a.decoded
  pub on_disk : b.on_disk ≡ a.on_disk

-- The data of an attempt is that of the answer.
abbrev pub Delivers : NntpResponse → Attempt → Type 0
Delivers r (decoded_data bytes) = bytes ≡ r.bytes
Delivers r (bad_data bytes) = bytes ≡ r.bytes
Delivers r _ = Unit

pub record IsTried (r : NntpResponse) (a : Article) (x : Attempt × Article) : Type 0 where
  pub same : Same a x.1
  pub delivers : Delivers r x.0

Same-refl : (a : Article) → Same a a
Same-refl a = record {
  saved = refl;
  registered = refl;
  bad_articles = refl;
  decoded = refl;
  on_disk = refl;
}

Same-trans : (a b c : Article) → Same a b → Same b c → Same a c
Same-trans a b c s t = record {
  saved = t.saved ∙ s.saved;
  registered = t.registered ∙ s.registered;
  bad_articles = t.bad_articles ∙ s.bad_articles;
  decoded = t.decoded ∙ s.decoded;
  on_disk = t.on_disk ∙ s.on_disk;
}

renamed : (a b : Article) (crc : Option ℕ) → Same a b → Same a (record b { crc32 = crc })
renamed a b crc s = record {
  saved = s.saved;
  registered = s.registered;
  bad_articles = s.bad_articles;
  decoded = s.decoded;
  on_disk = s.on_disk;
}

verify_name-Same :
    (w : World) (o : Option ℕ) (bytes : Data) (a : Article) → Same a (verify_name w o bytes a).1
verify_name-Same w none bytes a = Same-refl a
verify_name-Same w (some name) bytes a =
    if_ind (λ (x : Option Failure × Article). Same a x.1) a.filename_checked (λ _. Same-refl a)
      (λ _. ends w.name_failure)
  where
    ends :
        (o : Option Failure)
        → Same a
            (elim o as (λ _. Option Failure × Article) [
              | some f ↦ (some f, hash_first bytes a)
              | none ↦ (none, record (hash_first bytes a) { names = a.names ++ name ∷ [] })
            ]).1
    ends none = record {
      saved = refl;
      registered = refl;
      bad_articles = refl;
      decoded = refl;
      on_disk = refl;
    }
    ends (some f) = record {
      saved = refl;
      registered = refl;
      bad_articles = refl;
      decoded = refl;
      on_disk = refl;
    }

raise-Delivers : (r : NntpResponse) (f : Failure) → Delivers r (raise f)
raise-Delivers r memory_error = tt
raise-Delivers r value_error = tt
raise-Delivers r other_error = tt

checked-IsTried :
    (r : NntpResponse) (a : Article) (crc : Option ℕ) (x : Option Failure × Article)
    → Same a x.1
    → IsTried r a (checked crc r.bytes x)
checked-IsTried r a crc (some f, b) s = record { same = s; delivers = raise-Delivers r f }
checked-IsTried r a none (none, b) s = record { same = s; delivers = refl }
checked-IsTried r a (some crc) (none, b) s = record {
  same = renamed a b (some crc) s;
  delivers = refl;
}

set_crc-IsTried :
    (r : NntpResponse) (a : Article) (crc : Option ℕ) (x : Option Failure × Article)
    → Same a x.1
    → IsTried r a (set_crc crc r.bytes x)
set_crc-IsTried r a crc (some f, b) s = record { same = s; delivers = raise-Delivers r f }
set_crc-IsTried r a crc (none, b) s = record { same = renamed a b crc s; delivers = refl }

decode_yenc-IsTried : (w : World) (r : NntpResponse) (a : Article) → IsTried r a (decode_yenc w r a)
unfolding decode_yenc
decode_yenc-IsTried w r a =
    let b : Article = record a {
      file_size = r.file_size;
      data_begin = r.part_begin;
      data_size = r.part_size;
      decoded_size = r.bytes_decoded;
      nzf_type = some yenc;
    } in
    let s : Same a b = record {
      saved = refl;
      registered = refl;
      bad_articles = refl;
      decoded = refl;
      on_disk = refl;
    } in
    let x = verify_name w r.file_name r.bytes b in
    checked-IsTried r a r.crc x (Same-trans a b x.1 s (verify_name-Same w r.file_name r.bytes b))

decode_uu-IsTried : (w : World) (r : NntpResponse) (a : Article) → IsTried r a (decode_uu w r a)
unfolding decode_uu
decode_uu-IsTried w r a =
    let b : Article = record a { decoded_size = r.bytes_decoded; nzf_type = some uu } in
    let s : Same a b = record {
      saved = refl;
      registered = refl;
      bad_articles = refl;
      decoded = refl;
      on_disk = refl;
    } in
    let x = verify_name w r.file_name r.bytes b in
    if_ind (IsTried r a) (r.bytes_decoded == 0) (λ _. record { same = Same-refl a; delivers = tt })
      (λ _.
        if_ind (IsTried r a) r.baddata (λ _. record { same = Same-refl a; delivers = refl })
          (λ _.
            set_crc-IsTried r a r.crc x
              (Same-trans a b x.1 s (verify_name-Same w r.file_name r.bytes b))))

pub attempt-IsTried : (w : World) (r : NntpResponse) (a : Article) → IsTried r a (attempt w r a)
unfolding attempt
attempt-IsTried w r a =
    if_ind (IsTried r a) w.precheck (λ _. record { same = Same-refl a; delivers = tt })
      (λ _. failed w.failure)
  where
    failed :
        (f : Option Failure)
        → IsTried r a (elim f as (λ _. Attempt × Article) [
          | some f ↦ (raise f, a)
          | none ↦ if r.is_uu then decode_uu w r a else decode_yenc w r a
        ])
    failed (some f) = record { same = Same-refl a; delivers = raise-Delivers r f }
    failed none =
        if_ind (IsTried r a) r.is_uu (λ _. decode_uu-IsTried w r a) (λ _. decode_yenc-IsTried w r a)
