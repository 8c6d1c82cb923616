-- ===== src/Memory/Balloon/Laws.antt =====
-- One report to the balloon policy: the invariant, the ledger, and what an inflation requires.
use clone.Prelude.{ℕ, ◌+◌, ◌-◌, ◌≤◌, ◌<◌, ◌≡◌, Bool, true, false, some, arith}
use clone.Memory.Balloon.{
  BalloonPolicy, GuestState, active, idle, BalloonAction, inflate, deflate, hold, new, target_pages,
  report_activity_with_mem,
}

abbrev pub EmptyIfActive : GuestState → ℕ → Type 0
EmptyIfActive active pages = pages ≡ 0
EmptyIfActive idle pages = Unit {0}

-- For a guest of `total_pages`: the balloon never takes more than may be reclaimed, an active guest
-- has none, and what may be reclaimed leaves the floor, or everything where the floor is more.
pub record IsValid (total_pages : ℕ) (p : BalloonPolicy) : Type 0 where
  pub floor_kept : p.max_reclaimable ≡ total_pages - p.floor_pages
  pub within : p.balloon_pages ≤ p.max_reclaimable
  pub active_empty : EmptyIfActive p.state p.balloon_pages

pub new-IsValid :
    (total_pages floor_mb now : ℕ) → IsValid total_pages (new total_pages floor_mb now)
unfolding new
new-IsValid total_pages floor_mb now = ground arith

target_pages-le : (m d : ℕ) (t : ℕ) → target_pages m d ≡ some t → t ≤ m
unfolding target_pages
target_pages-le m d t e = ground arith

-- Every report keeps the policy valid.
pub report-IsValid :
    {total_pages : ℕ} {p : BalloonPolicy} (now : ℕ) (is_active mem_tight : Bool)
    → IsValid total_pages p
    → IsValid total_pages (report_activity_with_mem p now is_active mem_tight).0
unfolding report_activity_with_mem
report-IsValid now true mem_tight v = ground arith
report-IsValid now false mem_tight v = ground arith

-- What an action does to the number of pages in the balloon.
abbrev pub Accounts : ℕ → BalloonAction → ℕ → Type 0
Accounts before (inflate n) after = (0 < n) × (after ≡ before + n)
Accounts before (deflate n) after = (0 < n) × (n ≡ before) × (after ≡ 0)
Accounts before hold after = after ≡ before

-- For any policy and any report, the action returned is exactly the change made to balloon_pages,
-- and an inflation or a deflation is never of 0 pages.
pub report_Accounts :
    (p : BalloonPolicy) (now : ℕ) (is_active mem_tight : Bool)
    → let (q, action) = report_activity_with_mem p now is_active mem_tight in
      Accounts p.balloon_pages action q.balloon_pages
unfolding report_activity_with_mem
report_Accounts p now true mem_tight = ground arith
report_Accounts p now false mem_tight = ground arith
