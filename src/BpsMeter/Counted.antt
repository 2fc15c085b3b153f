-- ===== src/BpsMeter/Counted.antt =====
-- sabnzbd/bpsmeter.py: every downloaded byte of a server is counted once in each of its totals.
use sabnzbd.Prelude.{
  ℕ, ◌+◌, ◌≡◌, refl, ap, sym, subst, ◌∙◌, Bool, true, false, ◌==◌, if◌then◌else◌, if_ind, none,
  some, [], ◌∷◌, arith, Bool-cases, inl, inr, ==_iff, ==_refl, ◌||◌,
}
use sabnzbd.Prelude.Dict
use sabnzbd.Prelude.Dict.{Dict}
use sabnzbd.BpsMeter.{
  World, Meter, get_or, add_to, add_to_day, book, book_some, set_speed, book_all,
}
use sabnzbd.BpsMeter.Amounts.{
  bind-some, value, on_day, amount_of, some-inj, add_to-value, add_to_day-value,
}

-- What the totals of a server gained, that of the day in its timeline too.
pub record Gained (k n : ℕ) (m m' : Meter) : Type 0 where
  pub day : value k m'.day_total ≡ value k m.day_total + n
  pub week : value k m'.week_total ≡ value k m.week_total + n
  pub month : value k m'.month_total ≡ value k m.month_total + n
  pub grand : value k m'.grand_total ≡ value k m.grand_total + n
  pub label : m'.day_label ≡ m.day_label
  pub timeline : on_day k m.day_label m'.timeline_total ≡ on_day k m.day_label m.timeline_total + n
  pub sum_cached : m'.sum_cached_amount ≡ m.sum_cached_amount

book-Gained :
    (k server n : ℕ) (m m' : Meter)
    → book server n m ≡ some m'
    → Gained k (amount_of k server n) m m' × (m'.cached_amount ≡ Dict.put server 0 m.cached_amount)
unfolding book
book-Gained k server n m m' h =
    let (day, d, h) = bind-some (add_to server n m.day_total) _ m' h in
    let (week, w, h) = bind-some (add_to server n m.week_total) _ m' h in
    let (month, mo, h) = bind-some (add_to server n m.month_total) _ m' h in
    let (grand, g, h) = bind-some (add_to server n m.grand_total) _ m' h in
    let (timeline, t, h) = bind-some (add_to_day server m.day_label n m.timeline_total) _ m' h in
    subst
      (λ r.
        Gained k (amount_of k server n) m r × (r.cached_amount ≡ Dict.put server 0 m.cached_amount))
      (some-inj m' h)
      (
        record {
          day = add_to-value k server n m.day_total day d;
          week = add_to-value k server n m.week_total week w;
          month = add_to-value k server n m.month_total month mo;
          grand = add_to-value k server n m.grand_total grand g;
          label = refl;
          timeline = add_to_day-value k server m.day_label n m.timeline_total timeline t;
          sum_cached = refl;
        },
        refl,
      )

-- The entries are in the dict, each once.
abbrev pub AllHeld : Dict ℕ → Dict ℕ → Type 0
AllHeld [] d = Unit
AllHeld ((k, n) ∷ es) d = (Dict.get k d ≡ some n) × (Dict.has k es ≡ false) × AllHeld es d

AllHeld-put :
    (k n : ℕ) (es d : Dict ℕ) → Dict.has k es ≡ false → AllHeld es d → AllHeld es (Dict.put k n d)
AllHeld-put k n [] d out h = tt
AllHeld-put k n ((j, i) ∷ es) d out (found, once, rest) =
    let (other, out') = split out in
    (Dict.get-put_ne k j n d other ∙ found, once, AllHeld-put k n es d out' rest)
  where
    split : ((j == k) || Dict.has k es) ≡ false → ((k == j) ≡ false) × (Dict.has k es ≡ false)
    split h = ground (arith, h)

pub AllHeld-self : (d : Dict ℕ) → Dict.IsDict d → AllHeld d d
AllHeld-self [] h = tt
AllHeld-self ((k, n) ∷ d) (out, h) = (own, out, cons d out (AllHeld-self d h))
  where
    own : (if k == k then some n else Dict.get k d) ≡ some n
    own = ground (arith, ==_refl k)

    cons : (es : Dict ℕ) → Dict.has k es ≡ false → AllHeld es d → AllHeld es ((k, n) ∷ d)
    cons [] out h = tt
    cons ((j, i) ∷ es) out (found, once, rest) =
        (ne (j == k) (k == j) (flip out) found, once, cons es (later out) rest)
      where
        flip : ((j == k) || Dict.has k es) ≡ false → (k == j) ≡ false
        flip h = ground (arith, h)

        later : ((j == k) || Dict.has k es) ≡ false → Dict.has k es ≡ false
        later h = ground (arith, h)

        ne :
            (b c : Bool)
            → c ≡ false
            → Dict.get j d ≡ some i
            → (if c then some n else Dict.get j d) ≡ some i
        ne b c h found = rw h found

pub Gained-refl : (k : ℕ) (m : Meter) → Gained k 0 m m
Gained-refl k m = record {
  day = omega arith;
  week = omega arith;
  month = omega arith;
  grand = omega arith;
  label = refl;
  timeline = omega arith;
  sum_cached = refl;
}

pub Gained-trans :
    (k a b c : ℕ) (m n r : Meter) → c ≡ a + b → Gained k a m n → Gained k b n r → Gained k c m r
Gained-trans k a b c m n r e g h = record {
  day = omega (arith, g.day, h.day);
  week = omega (arith, g.week, h.week);
  month = omega (arith, g.month, h.month);
  grand = omega (arith, g.grand, h.grand);
  label = h.label ∙ g.label;
  timeline =
      let later : on_day k m.day_label r.timeline_total
          ≡ on_day k m.day_label n.timeline_total + b =
        subst (λ t. on_day k t r.timeline_total ≡ on_day k t n.timeline_total + b) g.label
          h.timeline in
      omega (arith, g.timeline, later);
  sum_cached = h.sum_cached ∙ g.sum_cached;
}

-- The kept amounts `es` that are still to be booked, and what is kept.
record Booked (k n : ℕ) (es : Dict ℕ) (m m' : Meter) : Type 0 where
  gained : Gained k n m m'
  cached : value k m'.cached_amount + n ≡ value k m.cached_amount
  held : AllHeld es m'.cached_amount

book_some-Booked :
    (k server n : ℕ) (es : Dict ℕ) (m m' : Meter)
    → Dict.get server m.cached_amount ≡ some n
    → Dict.has server es ≡ false
    → AllHeld es m.cached_amount
    → book_some server n m ≡ some m'
    → Booked k (amount_of k server n) es m m'
book_some-Booked k server n es m m' found once held h = elim (Bool-cases (n == 0)) [
  | inl e ↦ none_kept ((==_iff n 0).0 e) (skipped e h)
  | inr e ↦ kept (booked e h)
]
  where
    skipped : (n == 0) ≡ true → book_some server n m ≡ some m' → m ≡ m'
    skipped e h = some-inj m' (sym (rw e refl) ∙ h)

    booked : (n == 0) ≡ false → book_some server n m ≡ some m' → book server n m ≡ some m'
    booked e h = sym (rw e refl) ∙ h

    nothing : n ≡ 0 → amount_of k server n ≡ 0
    nothing e = if_ind (λ i. i ≡ 0) (server == k) (λ _. e) (λ _. refl)

    none_kept : n ≡ 0 → m ≡ m' → Booked k (amount_of k server n) es m m'
    none_kept e same = subst (Booked k (amount_of k server n) es m) same (
        subst (λ i. Booked k i es m m) (sym (nothing e))
          (record { gained = Gained-refl k m; cached = omega arith; held = held }))

    taken :
        value k (Dict.put server 0 m.cached_amount) + amount_of k server n ≡ value k m.cached_amount
    taken = elim (Bool-cases (server == k)) [
      | inl t ↦
          let same : Dict.get k m.cached_amount ≡ some n =
            subst (λ i. Dict.get i m.cached_amount ≡ some n) ((==_iff server k).0 t) found in
          ap (λ o. get_or 0 o + amount_of k server n) (Dict.get-put server k 0 m.cached_amount)
          ∙ rw t (rw same (omega arith))
      | inr f ↦
          ap (λ o. get_or 0 o + amount_of k server n) (Dict.get-put server k 0 m.cached_amount)
          ∙ rw f (omega arith)
    ]

    kept : book server n m ≡ some m' → Booked k (amount_of k server n) es m m'
    kept h =
        let (g, c) = book-Gained k server n m m' h in
        record {
          gained = g;
          cached = ap (λ d. value k d + amount_of k server n) c ∙ taken;
          held = subst (AllHeld es) (sym c) (AllHeld-put server 0 es m.cached_amount once held);
        }

set_speed-Gained :
    (k : ℕ) (w : World) (server n : ℕ) (m m' : Meter)
    → set_speed w server n m ≡ some m'
    → Gained k 0 m m' × (m'.cached_amount ≡ m.cached_amount)
unfolding set_speed
set_speed-Gained k w server n m m' h =
    let (bps, _, s) = bind-some (Dict.get server m.server_bps) _ m' h in
    subst (λ r. Gained k 0 m r × (r.cached_amount ≡ m.cached_amount)) (some-inj m' s)
      (
        record {
          day = omega arith;
          week = omega arith;
          month = omega arith;
          grand = omega arith;
          label = refl;
          timeline = omega arith;
          sum_cached = refl;
        },
        refl,
      )

value-cons :
    (k server n : ℕ) (es : Dict ℕ)
    → Dict.has server es ≡ false
    → value k ((server, n) ∷ es) ≡ amount_of k server n + value k es
value-cons k server n es out = elim (Bool-cases (server == k)) [
  | inl t ↦
      let none_left : Dict.get k es ≡ none =
        Dict.get-absent k es (subst (λ i. Dict.has i es ≡ false) ((==_iff server k).0 t) out) in
      rw t (rw none_left (omega arith))
  | inr f ↦ rw f (omega arith)
]

pub book_all-Gained :
    (k : ℕ) (w : World) (es : Dict ℕ) (m m' : Meter)
    → AllHeld es m.cached_amount
    → book_all w es m ≡ some m'
    → Gained k (value k es) m m' × (value k m'.cached_amount + value k es ≡ value k m.cached_amount)
unfolding book_all
book_all-Gained k w [] m m' held h =
    subst (λ r. Gained k 0 m r × (value k r.cached_amount + 0 ≡ value k m.cached_amount))
      (some-inj m' h) (Gained-refl k m, omega arith)
book_all-Gained k w ((server, n) ∷ es) m m' (found, once, held) h =
    let (m1, b, h) = bind-some (book_some server n m) _ m' h in
    let (m2, s, h) = bind-some (set_speed w server n m1) _ m' h in
    let one = book_some-Booked k server n es m m1 found once held b in
    let (g', c') = set_speed-Gained k w server n m1 m2 s in
    let (g'', c'') = book_all-Gained k w es m2 m' (subst (AllHeld es) (sym c') one.held) h in
    let total = value-cons k server n es once in
    (
      Gained-trans k (amount_of k server n) (value k es) (value k ((server, n) ∷ es)) m m2 m' total
          (Gained-trans k (amount_of k server n) 0 (amount_of k server n) m m1 m2 (omega arith)
            one.gained g')
          g'',
      ap (λ i. value k m'.cached_amount + i) total
          ∙ sums (value k m'.cached_amount) (amount_of k server n) (value k es)
              (value k m1.cached_amount) (value k m.cached_amount) (c'' ∙ ap (value k) c')
              one.cached,
    )
  where
    sums : (a b c d e : ℕ) → a + c ≡ d → d + b ≡ e → a + (b + c) ≡ e
    sums a b c d e h k = omega arith
