-- ===== src/BpsMeter/Started.antt =====
-- sabnzbd/bpsmeter.py: the totals at the start of `update`, after the ends of day, week and month.
use sabnzbd.Prelude.{
  ℕ, ◌+◌, ◌-◌, ◌≡◌, refl, ap, sym, subst, ◌∙◌, none, Bool-cases, inl, inr, ==_iff, ◌==◌, Bool, true,
  false, ◌&&◌, ltb, if_ind, if◌then◌else◌, List, [], ◌∷◌, arith,
}
use sabnzbd.Prelude.Dict
use sabnzbd.Prelude.Dict.{Dict}
use sabnzbd.BpsMeter.{
  World, Meter, get_or, set_default, set_day, init_server_stats, init_all, start_day,
}
use sabnzbd.BpsMeter.Amounts.{value, on_day}
use sabnzbd.BpsMeter.Counted.{Gained, Gained-refl, Gained-trans}

set_default-value : (k server : ℕ) (d : Dict ℕ) → value k (set_default server 0 d) ≡ value k d + 0
set_default-value k server d =
    if_ind (λ (l : Dict ℕ). value k l ≡ value k d + 0) (Dict.has server d) (λ _. omega arith)
      (λ out. elim (Bool-cases (server == k)) [
        | inl t ↦
            let absent : Dict.get k d ≡ none =
              Dict.get-absent k d (subst (λ i. Dict.has i d ≡ false) ((==_iff server k).0 t) out) in
            ap (get_or 0) (Dict.get-put server k 0 d) ∙ rw t (rw absent refl)
        | inr f ↦ ap (get_or 0) (Dict.get-put server k 0 d) ∙ rw f (omega arith)
      ])

set_day-value :
    (k day server label : ℕ) (d : Dict (Dict ℕ))
    → on_day k day (set_day server label d) ≡ on_day k day d + 0
set_day-value k day server label d = elim (Bool-cases (server == k)) [
  | inl t ↦
      ap (λ o. value day (get_or [] o))
        (Dict.get-put server k (set_default label 0 (get_or [] (Dict.get server d))) d)
      ∙ rw t (
          subst
            (λ i. value day (set_default label 0 (get_or [] (Dict.get i d))) ≡ on_day k day d + 0)
            (sym ((==_iff server k).0 t)) (set_default-value day label (get_or [] (Dict.get k d))))
  | inr f ↦
      ap (λ o. value day (get_or [] o))
        (Dict.get-put server k (set_default label 0 (get_or [] (Dict.get server d))) d)
      ∙ rw f (omega arith)
]

-- A new server has no bytes.
record Same (k : ℕ) (m m' : Meter) : Type 0 where
  totals : Gained k 0 m m'
  cached : value k m'.cached_amount ≡ value k m.cached_amount
  dict : Dict.IsDict m.cached_amount → Dict.IsDict m'.cached_amount

init_server-Same : (k server : ℕ) (m : Meter) → Same k m (init_server_stats server m)
unfolding init_server_stats
init_server-Same k server m = record {
  totals = record {
    day = set_default-value k server m.day_total;
    week = set_default-value k server m.week_total;
    month = set_default-value k server m.month_total;
    grand = set_default-value k server m.grand_total;
    label = refl;
    timeline = set_day-value k m.day_label server m.day_label m.timeline_total;
    sum_cached = refl;
  };
  cached = omega (arith, set_default-value k server m.cached_amount);
  dict = λ h.
      if_ind Dict.IsDict (Dict.has server m.cached_amount) (λ _. h)
        (λ _. Dict.put-IsDict server 0 m.cached_amount h);
}

init_all-Same : (k : ℕ) (servers : List ℕ) (m : Meter) → Same k m (init_all servers m)
init_all-Same k [] m = record { totals = Gained-refl k m; cached = refl; dict = λ h. h }
init_all-Same k (server ∷ servers) m =
    let one = init_server-Same k server m in
    let rest = init_all-Same k servers (init_server_stats server m) in
    record {
      totals =
          Gained-trans k 0 0 0 m (init_server_stats server m)
            (init_all servers (init_server_stats server m)) (omega arith) one.totals rest.totals;
      cached = rest.cached ∙ one.cached;
      dict = λ h. rest.dict (one.dict h);
    }

-- The label of the day that an update counts for.
abbrev pub label_of : World → Meter → ℕ
label_of w m = if ltb m.end_of_day w.now then w.today else m.day_label

-- The totals at the start of an update: those of a period that is over are empty.
pub record Started (k : ℕ) (w : World) (m m' : Meter) : Type 0 where
  pub day : value k m'.day_total ≡ (if ltb m.end_of_day w.now then 0 else value k m.day_total)
  pub week :
      value k m'.week_total
      ≡ (if ltb m.end_of_day w.now && ltb m.end_of_week w.now then 0 else value k m.week_total)
  pub month :
      value k m'.month_total
      ≡ (if ltb m.end_of_day w.now && ltb m.end_of_month w.now then 0 else value k m.month_total)
  pub grand : value k m'.grand_total ≡ value k m.grand_total
  pub cached : value k m'.cached_amount ≡ value k m.cached_amount
  pub dict : Dict.IsDict m.cached_amount → Dict.IsDict m'.cached_amount
  pub label : m'.day_label ≡ label_of w m
  pub timeline :
      on_day k (label_of w m) m'.timeline_total ≡ on_day k (label_of w m) m.timeline_total
  pub sum_cached : m'.sum_cached_amount ≡ m.sum_cached_amount

pub start_day-Started : (k : ℕ) (w : World) (m : Meter) → Started k w m (start_day w m)
unfolding start_day
start_day-Started k w m =
    if_ind (Started k w m) (ltb m.end_of_day w.now)
      (λ e.
        let new : Meter = record m {
          day_label = w.today;
          end_of_day = w.tomorrow - 1;
          day_total = [];
          delayed_assembler = 0;
          week_total = if ltb m.end_of_week w.now then [] else m.week_total;
          end_of_week = if ltb m.end_of_week w.now then w.next_week - 1 else m.end_of_week;
          month_total = if ltb m.end_of_month w.now then [] else m.month_total;
          end_of_month = if ltb m.end_of_month w.now then w.next_month - 1 else m.end_of_month;
        } in
        let s = init_all-Same k w.servers new in
        record {
          day = rw e (omega (arith, s.totals.day));
          week = rw e (zero_more s.totals.week ∙ cut (ltb m.end_of_week w.now) m.week_total);
          month = rw e (zero_more s.totals.month ∙ cut (ltb m.end_of_month w.now) m.month_total);
          grand = zero_more s.totals.grand;
          cached = s.cached;
          dict = s.dict;
          label = s.totals.label ∙ rw e refl;
          timeline = rw e (zero_more s.totals.timeline);
          sum_cached = s.totals.sum_cached;
        })
      (λ e. record {
        day = rw e refl;
        week = rw e refl;
        month = rw e refl;
        grand = refl;
        cached = refl;
        dict = λ h. h;
        label = rw e refl;
        timeline = refl;
        sum_cached = refl;
      })
  where
    cut : (b : Bool) (d : Dict ℕ) → value k (if b then [] else d) ≡ (if b then 0 else value k d)
    cut true d = refl
    cut false d = refl

    zero_more : {a b : ℕ} → a ≡ b + 0 → a ≡ b
    zero_more h = omega (arith, h)
