-- ===== src/BpsMeter/Returns.antt =====
-- sabnzbd/bpsmeter.py: the booking of the kept amounts finds all its keys.
use sabnzbd.Prelude.{
  ℕ, ◌+◌, ◌≡◌, refl, ap, ◌∙◌, Bool, true, false, ◌||◌, ◌==◌, Option, none, some, [], ◌∷◌, arith,
  Bool-cases, inl, inr,
}
use sabnzbd.Prelude.Dict
use sabnzbd.Prelude.Dict.{Dict}
use sabnzbd.BpsMeter.{World, Meter, add_to, add_to_day, book, book_some, set_speed, book_all}

get-has {ℓ} :
    {V : Type ℓ} (k : ℕ) (d : Dict V) → Dict.has k d ≡ true → (v : V) × (Dict.get k d ≡ some v)
get-has k [] h = absurd (cc)
get-has k ((j, v) ∷ d) h = elim (Bool-cases (j == k)) [
  | inl e ↦ (v, rw e refl)
  | inr e ↦ let (u, found) = get-has k d (rest e) in (u, rw e found)
]
  where
    rest : (j == k) ≡ false → Dict.has k d ≡ true
    rest e = ground (arith, h)

-- The keys of one dict are in another.
abbrev Keeps {ℓ κ} : {V : Type ℓ} {W : Type κ} → Dict V → Dict W → Type 0
Keeps d d' = (j : ℕ) → Dict.has j d ≡ true → Dict.has j d' ≡ true

put-Keeps {ℓ} : {V : Type ℓ} (k : ℕ) (v : V) (d : Dict V) → Keeps d (Dict.put k v d)
put-Keeps k v d j h = Dict.has-put k j v d ∙ either (k == j)
  where
    either : (b : Bool) → (b || Dict.has j d) ≡ true
    either b = ground (arith, h)

add_to-returns :
    (k n : ℕ) (d : Dict ℕ)
    → Dict.has k d ≡ true
    → (d' : Dict ℕ) × (add_to k n d ≡ some d') × Keeps d d'
unfolding add_to
add_to-returns k n d h =
    let (v, found) = get-has k d h in
    (
      Dict.put k (v + n) d,
      ap
          (λ o. elim o as (λ _. Option (Dict ℕ)) [
            | none ↦ none
            | some v ↦ some (Dict.put k (v + n) d)
          ])
          found,
      put-Keeps k (v + n) d,
    )

-- The server has its totals, for the day too, and its speed.
pub record IsKnown (m : Meter) (server : ℕ) : Type 0 where
  pub day : Dict.has server m.day_total ≡ true
  pub week : Dict.has server m.week_total ≡ true
  pub month : Dict.has server m.month_total ≡ true
  pub grand : Dict.has server m.grand_total ≡ true
  pub speed : Dict.has server m.server_bps ≡ true
  pub days : Dict ℕ
  pub timeline : Dict.get server m.timeline_total ≡ some days
  pub label : Dict.has m.day_label days ≡ true

book-returns :
    (server n : ℕ) (m : Meter)
    → IsKnown m server
    → (m' : Meter) × (book server n m ≡ some m') × ((j : ℕ) → IsKnown m j → IsKnown m' j)
unfolding book add_to_day
book-returns server n m h =
    let (day, d, dk) = add_to-returns server n m.day_total h.day in
    let (week, w, wk) = add_to-returns server n m.week_total h.week in
    let (month, mo, mk) = add_to-returns server n m.month_total h.month in
    let (grand, g, gk) = add_to-returns server n m.grand_total h.grand in
    let (days, t, tk) = add_to-returns m.day_label n h.days h.label in
    (
      record m {
        day_total = day;
        week_total = week;
        month_total = month;
        grand_total = grand;
        timeline_total = Dict.put server days m.timeline_total;
        cached_amount = Dict.put server 0 m.cached_amount;
      },
      rw d (rw w (rw mo (rw g (rw h.timeline (rw t refl))))),
      λ j k.
          let (ds, found, here) = on_day j k days (tk m.day_label h.label) in
          record {
            day = dk j k.day;
            week = wk j k.week;
            month = mk j k.month;
            grand = gk j k.grand;
            speed = k.speed;
            days = ds;
            timeline = found;
            label = here;
          },
    )
  where
    on_day :
        (j : ℕ)
        → IsKnown m j
        → (days : Dict ℕ) → Dict.has m.day_label days ≡ true
        → (ds : Dict ℕ) × (Dict.get j (Dict.put server days m.timeline_total) ≡ some ds)
          × (Dict.has m.day_label ds ≡ true)
    on_day j k days l = elim (Bool-cases (server == j)) [
      | inl e ↦ (days, Dict.get-put server j days m.timeline_total ∙ rw e refl, l)
      | inr e ↦ (k.days, Dict.get-put_ne server j days m.timeline_total e ∙ k.timeline, k.label)
    ]

book_some-returns :
    (server n : ℕ) (m : Meter)
    → IsKnown m server
    → (m' : Meter) × (book_some server n m ≡ some m') × ((j : ℕ) → IsKnown m j → IsKnown m' j)
book_some-returns server n m h = elim (Bool-cases (n == 0)) [
  | inl e ↦ (m, rw e refl, λ j k. k)
  | inr e ↦ let (m', returns, known) = book-returns server n m h in (m', rw e returns, known)
]

set_speed-returns :
    (w : World) (server n : ℕ) (m : Meter)
    → IsKnown m server
    → (m' : Meter) × (set_speed w server n m ≡ some m') × ((j : ℕ) → IsKnown m j → IsKnown m' j)
unfolding set_speed
set_speed-returns w server n m h =
    let (bps, found) = get-has server m.server_bps h.speed in
    (
      record m { server_bps = Dict.put server (w.speed bps n) m.server_bps },
      rw found refl,
      λ j k. record {
        day = k.day;
        week = k.week;
        month = k.month;
        grand = k.grand;
        speed = put-Keeps server (w.speed bps n) m.server_bps j k.speed;
        days = k.days;
        timeline = k.timeline;
        label = k.label;
      },
    )

abbrev pub AllKnown : Dict ℕ → Meter → Type 0
AllKnown [] m = Unit
AllKnown ((server, _) ∷ es) m = IsKnown m server × AllKnown es m

AllKnown-keeps :
    (es : Dict ℕ) (m m' : Meter)
    → ((j : ℕ) → IsKnown m j → IsKnown m' j)
    → AllKnown es m
    → AllKnown es m'
AllKnown-keeps [] m m' k h = tt
AllKnown-keeps ((server, _) ∷ es) m m' k (h, hs) = (k server h, AllKnown-keeps es m m' k hs)

pub book_all-returns :
    (w : World) (es : Dict ℕ) (m : Meter)
    → AllKnown es m
    → (m' : Meter) × (book_all w es m ≡ some m')
unfolding book_all
book_all-returns w [] m h = (m, refl)
book_all-returns w ((server, n) ∷ es) m (h, hs) =
    let (m1, b, k) = book_some-returns server n m h in
    let (m2, s, k') = set_speed-returns w server n m1 (k server h) in
    let (m3, r) = book_all-returns w es m2 (AllKnown-keeps es m m2 (λ j x. k' j (k j x)) hs) in
    (m3, rw b (rw s r))
