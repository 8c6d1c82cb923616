-- ===== src/Memory/Balloon/History.antt =====
-- Histories of reports to the balloon policy.
use clone.Prelude.{ℕ, ◌+◌, ◌≤◌, ◌<◌, ◌≡◌, refl, Bool, true, false, List, [], ◌∷◌, arith, min, ◌*◌}
use clone.Memory.Balloon.{
  BalloonPolicy, BalloonAction, inflate, deflate, hold, secs, new, report_activity_with_mem,
}
use clone.Memory.Balloon.Laws.{IsValid, new-IsValid, report-IsValid}

-- When, whether the guest was active, and whether its memory was tight.
abbrev pub Report : Type 0
Report = ℕ × Bool × Bool

abbrev pub report : BalloonPolicy → Report → BalloonPolicy × BalloonAction
report p (now, is_active, mem_tight) = report_activity_with_mem p now is_active mem_tight

unfoldable pub after : BalloonPolicy → List Report → BalloonPolicy
after p [] = p
after p (r ∷ rs) = after (report p r).0 rs

-- The reports come at times that do not go back.
abbrev pub InOrder : ℕ → List Report → Type 0
InOrder from [] = Unit {0}
InOrder from ((now, _, _) ∷ rs) = (from ≤ now) × InOrder now rs

-- Every report of activity is more than 30 seconds older than `now`.
abbrev pub Quiet : ℕ → List Report → Type 0
Quiet now [] = Unit {0}
Quiet now ((t, true, _) ∷ rs) = (t + secs 30 < now) × Quiet now rs
Quiet now ((t, false, _) ∷ rs) = Quiet now rs

abbrev pub CooledSince : ℕ → BalloonAction → ℕ → Type 0
CooledSince t (deflate n) now = t + secs 60 ≤ now
CooledSince t hold now = Unit {0}
CooledSince t (inflate n) now = Unit {0}

-- Every deflation of the history is at least 60 seconds older than `now`.
abbrev pub Cooled : ℕ → BalloonPolicy → List Report → Type 0
Cooled now p [] = Unit {0}
Cooled now p (r ∷ rs) = CooledSince r.0 (report p r).1 now × Cooled now (report p r).0 rs

record IsPast (now : ℕ) (p : BalloonPolicy) : Type 0 where
  saw_active : p.last_active ≤ now
  saw_deflate : p.last_deflate ≤ now

report-IsPast :
    (p : BalloonPolicy) (from now : ℕ) (is_active mem_tight : Bool)
    → from ≤ now
    → IsPast from p
    → IsPast now (report p (now, is_active, mem_tight)).0
unfolding report_activity_with_mem
report-IsPast p from now true mem_tight h v = ground arith
report-IsPast p from now false mem_tight h v = ground arith

record Grows (p q : BalloonPolicy) : Type 0 where
  active_le : p.last_active ≤ q.last_active
  deflate_le : p.last_deflate ≤ q.last_deflate

report-Grows :
    (p : BalloonPolicy) (now : ℕ) (is_active mem_tight : Bool)
    → IsPast now p
    → Grows p (report p (now, is_active, mem_tight)).0
unfolding report_activity_with_mem
report-Grows p now true mem_tight v = ground arith
report-Grows p now false mem_tight v = ground arith

after-Grows :
    (rs : List Report) (p : BalloonPolicy) (from : ℕ)
    → InOrder from rs
    → IsPast from p
    → Grows p (after p rs)
unfolding after
after-Grows [] p from o v = omega arith
after-Grows ((now, a, t) ∷ rs) p from o v =
    let v' = report-IsPast p from now a t o.0 v in
    let g = report-Grows p now a t (omega arith) in
    omega (arith, after-Grows rs (report p (now, a, t)).0 now o.1 v')

active_sets :
    (p : BalloonPolicy) (now : ℕ) (mem_tight : Bool)
    → (report p (now, true, mem_tight)).0.last_active ≡ now
unfolding report_activity_with_mem
active_sets p now mem_tight = ground arith

deflate_sets :
    (p : BalloonPolicy) (now : ℕ) (a t : Bool) {n : ℕ}
    → (report p (now, a, t)).1 ≡ deflate n
    → (report p (now, a, t)).0.last_deflate ≡ now
unfolding report_activity_with_mem
deflate_sets p now true t e = ground arith
deflate_sets p now false t e = ground arith

-- What the state keeps of the history is enough to know it quiet and cooled.
after-Quiet :
    (rs : List Report) (p : BalloonPolicy) (from now : ℕ)
    → InOrder from rs
    → IsPast from p
    → (after p rs).last_active + secs 30 < now
    → Quiet now rs
unfolding after
after-Quiet [] p from now o v h = tt
after-Quiet ((t, true, m) ∷ rs) p from now o v h =
    let v' = report-IsPast p from t true m o.0 v in
    (
      omega (arith, after-Grows rs (report p (t, true, m)).0 t o.1 v', active_sets p t m),
      after-Quiet rs (report p (t, true, m)).0 t now o.1 v' h,
    )
after-Quiet ((t, false, m) ∷ rs) p from now o v h =
    after-Quiet rs (report p (t, false, m)).0 t now o.1 (report-IsPast p from t false m o.0 v) h

cooled_since :
    (action : BalloonAction) (t now last : ℕ)
    → ((n : ℕ) → action ≡ deflate n → t ≤ last)
    → last + secs 60 ≤ now
    → CooledSince t action now
cooled_since (deflate n) t now last f h = omega (arith, f n refl)
cooled_since hold t now last f h = tt
cooled_since (inflate n) t now last f h = tt

after-Cooled :
    (rs : List Report) (p : BalloonPolicy) (from now : ℕ)
    → InOrder from rs
    → IsPast from p
    → (after p rs).last_deflate + secs 60 ≤ now
    → Cooled now p rs
unfolding after
after-Cooled [] p from now o v h = tt
after-Cooled ((t, a, m) ∷ rs) p from now o v h =
    let v' = report-IsPast p from t a m o.0 v in
    let p' = (report p (t, a, m)).0 in
    (
      cooled_since (report p (t, a, m)).1 t now (after p' rs).last_deflate
          (λ n e. omega (arith, after-Grows rs p' t o.1 v', deflate_sets p t a m e)) h,
      after-Cooled rs p' t now o.1 v' h,
    )

inflate_guard :
    (p : BalloonPolicy) (now : ℕ) (a t : Bool) {n : ℕ}
    → (report p (now, a, t)).1 ≡ inflate n
    → (a ≡ false) × (t ≡ false) × (p.last_active + secs 30 < now) × (p.last_deflate + secs 60 ≤ now)
unfolding report_activity_with_mem
inflate_guard p now true t e = ground arith
inflate_guard p now false t e = ground arith

-- After any history of a new policy whose report times do not go back, a report at any time `now`
-- inflates the balloon only if it says that the guest is idle with memory to spare, every report of
-- activity in the history is more than 30 seconds older than `now`, and every deflation in it at
-- least 60 seconds older.
pub inflate_needs_rest :
    (total_pages floor_mb start : ℕ) (rs : List Report) (now : ℕ) (a t : Bool) {n : ℕ}
    → InOrder start rs
    → (report (after (new total_pages floor_mb start) rs) (now, a, t)).1 ≡ inflate n
    → (a ≡ false) × (t ≡ false) × Quiet now rs × Cooled now (new total_pages floor_mb start) rs
inflate_needs_rest total_pages floor_mb start rs now a t o e =
    let p = new total_pages floor_mb start in
    let (idles, spare, quiet, cool) = inflate_guard (after p rs) now a t e in
    let v : IsPast start p = unfold new in omega arith in
    (idles, spare, after-Quiet rs p start now o v quiet, after-Cooled rs p start now o v cool)

after-IsValid :
    {total_pages : ℕ} (rs : List Report) {p : BalloonPolicy}
    → IsValid total_pages p
    → IsValid total_pages (after p rs)
unfolding after
after-IsValid [] v = v
after-IsValid ((now, a, t) ∷ rs) v = after-IsValid rs (report-IsValid now a t v)

floor-after : (rs : List Report) (p : BalloonPolicy) → (after p rs).floor_pages ≡ p.floor_pages
unfolding after report_activity_with_mem
floor-after [] p = refl
floor-after ((now, true, t) ∷ rs) p = ground (arith, floor-after rs (report p (now, true, t)).0)
floor-after ((now, false, t) ∷ rs) p = ground (arith, floor-after rs (report p (now, false, t)).0)

-- No history of reports to a new policy takes the guest below its floor: of `total_pages` at least
-- `floor_mb` megabytes stay, or all of them if they are fewer.
pub floor_is_kept :
    (total_pages floor_mb start : ℕ) (rs : List Report)
    → (after (new total_pages floor_mb start) rs).balloon_pages + min total_pages (floor_mb * 256)
      ≤ total_pages
floor_is_kept total_pages floor_mb start rs =
    let v = after-IsValid rs (new-IsValid total_pages floor_mb start) in
    omega (arith, floor_of_new, floor-after rs (new total_pages floor_mb start))
  where
    floor_of_new : (new total_pages floor_mb start).floor_pages ≡ floor_mb * 256
    floor_of_new = unfold new in omega arith
