-- ===== src/Memory/Balloon.antt =====
-- memory/balloon.rs: BalloonPolicy, which decides when to take pages from an idle guest.
-- An Instant is a number of nanoseconds, given as an argument of each report. The f64 percentage of
-- available memory enters as the outcome of its one test, `mem_available_pct < 25.0`; the f64
-- product with the fraction is exact below 2 ^ 53 pages, and is written as a division.
pub mod Laws
pub mod History
mod Tests
use clone.Prelude.{
  ℕ, ◌+◌, ◌-◌, ◌*◌, ◌/◌, ◌^◌, Option, none, some, List, [], ◌∷◌, Bool, true, false, ltb, leb,
  if◌then◌else◌, length, ◌++◌,
}

pub data GuestState : Type 0 where
  active idle : GuestState

pub data BalloonAction : Type 0 where
  inflate : ℕ → BalloonAction
  deflate : ℕ → BalloonAction
  hold : BalloonAction

pub record BalloonPolicy : Type 0 where
  pub balloon_pages : ℕ
  pub max_reclaimable : ℕ
  pub floor_pages : ℕ
  pub last_active : ℕ
  pub last_deflate : ℕ
  pub transitions : List ℕ
  pub state : GuestState

abbrev pub secs : ℕ → ℕ
secs n = n * 1_000_000_000

-- saturating_sub
unfoldable pub new : ℕ → ℕ → ℕ → BalloonPolicy
new total_pages floor_mb now = record {
  balloon_pages = 0;
  max_reclaimable = total_pages - floor_mb * 1024 * 1024 / 4096;
  floor_pages = floor_mb * 1024 * 1024 / 4096;
  last_active = now;
  last_deflate = now;
  transitions = [];
  state = active;
}

-- transitions.retain(|t| *t > now - 300s); an Instant may lie before the epoch of ℕ, so the
-- seconds are added on the other side.
unfoldable pub retain_recent : ℕ → List ℕ → List ℕ
retain_recent now [] = []
retain_recent now (t ∷ ts) =
    if ltb now (t + secs 300) then t ∷ retain_recent now ts else retain_recent now ts

unfoldable pub cooldown_duration : BalloonPolicy → ℕ
cooldown_duration p = if leb 3 (length p.transitions) then secs 180 else secs 60

-- new_state != self.state
unfoldable pub differs : GuestState → GuestState → Bool
differs active active = false
differs idle idle = false
differs active idle = true
differs idle active = true

unfoldable pub track : BalloonPolicy → ℕ → GuestState → BalloonPolicy
unfolding retain_recent differs
track p now new_state =
    let transitions =
      if differs new_state p.state
      then retain_recent now (p.transitions ++ now ∷ [])
      else p.transitions in
    record p { transitions = transitions; state = new_state }

-- How many pages an idle time asks for; `none` is the early return.
unfoldable pub target_pages : ℕ → ℕ → Option ℕ
target_pages max_reclaimable idle_duration =
    if ltb (secs 300) idle_duration
    then some max_reclaimable
    else if ltb (secs 120) idle_duration
    then some (max_reclaimable / 2)
    else if ltb (secs 30) idle_duration
    then some (max_reclaimable / 4)
    else none

unfoldable pub inflate_to : BalloonPolicy → Option ℕ → BalloonPolicy × BalloonAction
inflate_to p none = (p, hold)
inflate_to p (some target) =
    if ltb p.balloon_pages target
    then (record p { balloon_pages = target }, inflate (target - p.balloon_pages))
    else (p, hold)

unfoldable pub on_active : BalloonPolicy → ℕ → BalloonPolicy × BalloonAction
on_active p now =
    if ltb 0 p.balloon_pages
    then (
      record p { balloon_pages = 0; last_active = now; last_deflate = now },
      deflate p.balloon_pages,
    )
    else (record p { last_active = now }, hold)

-- duration_since saturates at zero, as `-` does.
unfoldable pub on_idle : BalloonPolicy → ℕ → Bool → BalloonPolicy × BalloonAction
unfolding cooldown_duration target_pages inflate_to
on_idle p now mem_tight =
    if ltb (now - p.last_deflate) (cooldown_duration p)
    then (p, hold)
    else if mem_tight
    then (p, hold)
    else inflate_to p (target_pages p.max_reclaimable (now - p.last_active))

unfoldable pub dispatch : GuestState → BalloonPolicy → ℕ → Bool → BalloonPolicy × BalloonAction
unfolding on_active on_idle
dispatch active p now mem_tight = on_active p now
dispatch idle p now mem_tight = on_idle p now mem_tight

abbrev pub state_of : Bool → GuestState
state_of is_active = if is_active then active else idle

unfoldable pub report_activity_with_mem :
    BalloonPolicy → ℕ → Bool → Bool → BalloonPolicy × BalloonAction
unfolding track dispatch
report_activity_with_mem p now is_active mem_tight =
    dispatch (state_of is_active) (track p now (state_of is_active)) now mem_tight

-- 100% available is not tight.
unfoldable pub report_activity : BalloonPolicy → ℕ → Bool → BalloonPolicy × BalloonAction
unfolding report_activity_with_mem
report_activity p now is_active = report_activity_with_mem p now is_active false
