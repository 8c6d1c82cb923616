-- ===== src/Memory/Balloon/Tests.antt =====
-- The scenarios of the policy's unit tests, on a guest of 256 MB with a floor of 64 MB.
use clone.Prelude.{◌+◌, ◌≤◌, ◌≡◌, refl, ◌*◌, List, [], ◌∷◌, true, false, arith, min}
use clone.Memory.Balloon.{
  BalloonPolicy, inflate, hold, secs, new, report_activity_with_mem, cooldown_duration,
}
use clone.Memory.Balloon.History.{
  Report, report, after, Quiet, Cooled, inflate_needs_rest, floor_is_kept,
}

abbrev fresh : BalloonPolicy
fresh = new 65536 64 0

-- Idle from the first second on.
abbrev quiet_minute : List Report
quiet_minute = (secs 1, false, false) ∷ []

fresh_reclaimable : fresh.max_reclaimable ≡ 49152
unfolding new
fresh_reclaimable = refl

quarter_after_a_minute :
    (report (after fresh quiet_minute) (secs 60, false, false)).1 ≡ inflate 12288
unfolding new after report_activity_with_mem
quarter_after_a_minute = refl

tight_memory_holds : (report (after fresh quiet_minute) (secs 60, false, true)).1 ≡ hold
unfolding new after report_activity_with_mem
tight_memory_holds = refl

bursts_cool_for_three_minutes :
    cooldown_duration
      (after fresh ((secs 1, false, false) ∷ (secs 2, true, false) ∷ (secs 3, false, false) ∷ []))
    ≡ secs 180
unfolding new after report_activity_with_mem cooldown_duration
bursts_cool_for_three_minutes = refl

inflate_needs_rest_example :
    (false ≡ false)
    × (false ≡ false)
    × Quiet (secs 60) quiet_minute
    × Cooled (secs 60) (new 65536 64 0) quiet_minute
inflate_needs_rest_example =
    inflate_needs_rest 65536 64 0 quiet_minute (secs 60) false false (omega arith, tt)
      quarter_after_a_minute

floor_is_kept_example :
    (after (new 65536 64 0) quiet_minute).balloon_pages + min 65536 (64 * 256) ≤ 65536
floor_is_kept_example = floor_is_kept 65536 64 0 quiet_minute
