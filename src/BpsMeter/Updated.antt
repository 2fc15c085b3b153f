-- ===== src/BpsMeter/Updated.antt =====
-- sabnzbd/bpsmeter.py: the totals after `update`, with the ends of day, week and month.
use sabnzbd.Prelude.{ℕ, ◌+◌, ◌≡◌, refl, ap, subst, ◌∙◌, ◌&&◌, ltb, if◌then◌else◌, some, arith}
use sabnzbd.Prelude.Dict
use sabnzbd.Prelude.Dict.{Dict}
use sabnzbd.BpsMeter.{World, Meter, book_all, start_day}
use sabnzbd.BpsMeter.Quota.{end_update, update}
use sabnzbd.BpsMeter.Returns.{AllKnown, book_all-returns}
use sabnzbd.BpsMeter.Amounts.{value, on_day}
use sabnzbd.BpsMeter.Counted.{AllHeld-self, book_all-Gained}
use sabnzbd.BpsMeter.Started.{label_of, start_day-Started}
use sabnzbd.BpsMeter.Kept.{end_update-Kept}

-- The totals of a server after `update`: each has grown by the kept amount, after that of a day, week
-- or month that is over was emptied, and nothing is kept.
pub record IsCounted (server : ℕ) (w : World) (m m' : Meter) : Type 0 where
  pub grand :
      value server m'.grand_total ≡ value server m.grand_total + value server m.cached_amount
  pub month :
      value server m'.month_total
      ≡ (if ltb m.end_of_day w.now && ltb m.end_of_month w.now
          then 0
          else value server m.month_total)
        + value server m.cached_amount
  pub week :
      value server m'.week_total
      ≡ (if ltb m.end_of_day w.now && ltb m.end_of_week w.now then 0 else value server m.week_total)
        + value server m.cached_amount
  pub day :
      value server m'.day_total
      ≡ (if ltb m.end_of_day w.now then 0 else value server m.day_total)
        + value server m.cached_amount
  pub timeline :
      on_day server (label_of w m) m'.timeline_total
      ≡ on_day server (label_of w m) m.timeline_total + value server m.cached_amount
  pub kept : value server m'.cached_amount ≡ 0

-- If no server is kept twice and, once the day is started, each server with a kept amount has an entry in
-- each of the totals, in the timeline for that day too (without one the code raises a KeyError): `update`
-- returns, and for each server its day, week, month and grand total and that of the day in its timeline
-- have grown by its kept amount, after that of a day, week or month that is over was emptied; no amount is
-- kept, by server or in sum.
pub update-IsCounted :
    (w : World) (m : Meter)
    → Dict.IsDict m.cached_amount
    → AllKnown (start_day w m).cached_amount (start_day w m)
    → (m' : Meter) × (update w m ≡ some m')
      × ((server : ℕ) → IsCounted server w m m')
      × (m'.sum_cached_amount ≡ 0)
unfolding update
update-IsCounted w m dict known =
    let m0 = start_day w m in
    let (m1, returns) = book_all-returns w m0.cached_amount m0 known in
    (
      end_update w m1,
      rw returns refl,
      (λ server. counted server m1 returns),
      (end_update-Kept w m1).1,
    )
  where
    plus : {a b c d e : ℕ} → a ≡ b + c → b ≡ d → c ≡ e → a ≡ d + e
    plus h k l = omega (arith, h, k, l)

    none_left : {a b : ℕ} → a + b ≡ b → a ≡ 0
    none_left h = omega (arith, h)

    counted :
        (server : ℕ) (m1 : Meter)
        → book_all w (start_day w m).cached_amount (start_day w m) ≡ some m1
        → IsCounted server w m (end_update w m1)
    counted server m1 returns =
        let m0 = start_day w m in
        let s = start_day-Started server w m in
        let (g, c) =
          book_all-Gained server w m0.cached_amount m0 m1
            (AllHeld-self m0.cached_amount (s.dict dict)) returns in
        let k = (end_update-Kept w m1).0 in
        record {
          grand = ap (value server) k.grand ∙ plus g.grand s.grand s.cached;
          month = ap (value server) k.month ∙ plus g.month s.month s.cached;
          week = ap (value server) k.week ∙ plus g.week s.week s.cached;
          day = ap (value server) k.day ∙ plus g.day s.day s.cached;
          timeline =
              let booked : on_day server (label_of w m) m1.timeline_total
                  ≡ on_day server (label_of w m) m0.timeline_total + value server m0.cached_amount =
                subst
                  (λ t.
                    on_day server t m1.timeline_total
                    ≡ on_day server t m0.timeline_total + value server m0.cached_amount)
                  s.label g.timeline in
              ap (on_day server (label_of w m)) k.timeline ∙ plus booked s.timeline s.cached;
          kept = ap (value server) k.cached ∙ none_left c;
        }
