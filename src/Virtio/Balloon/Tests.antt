-- ===== src/Virtio/Balloon/Tests.antt =====
-- Balloons of guests with 4 GiB, told the end of the guest's memory or the size of the allocation.
use clone.Prelude.{
  ℕ, ◌+◌, ◌*◌, ◌≡◌, ◌≢◌, refl, arith, inr, none, [], ◌∷◌, ltb, leb, ◌&&◌, if◌then◌else◌,
}
use clone.Memory.Store.{Store}
use clone.Memory.Guest.{from_raw_with_hole, gpa_to_offset}
use clone.Virtio.Balloon.{
  new_balloon, host_page, process_inflate, process_deflate, mmio_hole_start, mmio_hole_end,
}
use clone.Virtio.Balloon.Pages.{
  host_page_in_place, boot_size_refuses, process_deflate-process_inflate,
}

-- A released page reads as zeros.
abbrev zeroed : Store → ℕ → ℕ → Store
zeroed s offset n = λ x. if leb offset x && ltb x (offset + n) then 0 else s x

host_page_in_place_example :
    host_page (new_balloon 0x1_4000_0000) 0x13fff0
    ≡ gpa_to_offset
        (from_raw_with_hole 0x1_0000_0000 mmio_hole_start mmio_hole_end)
        (0x13fff0 * 4096)
host_page_in_place_example =
    host_page_in_place (new_balloon 0x1_4000_0000) 0x1_0000_0000 0x13fff0 (omega arith)
      (omega arith) refl (omega arith) (inr (omega arith)) (omega arith)

boot_size_refuses_example :
    (host_page (new_balloon 0x1_0000_0000) 0x13fff0 ≡ none)
    × ((process_inflate zeroed (new_balloon 0x1_0000_0000) (λ x. 1) (0x13fff0 ∷ [])).1 ≡ (λ x. 1))
    × (gpa_to_offset
          (from_raw_with_hole 0x1_0000_0000 mmio_hole_start mmio_hole_end)
          (0x13fff0 * 4096)
        ≢ none)
boot_size_refuses_example =
    boot_size_refuses zeroed (λ x. 1) (new_balloon 0x1_0000_0000) 0x1_0000_0000 0x13fff0
      (omega arith) (omega arith) refl (omega arith) (omega arith) (omega arith)

process_deflate-process_inflate_example :
    process_deflate
      (process_inflate zeroed (new_balloon 0x1000_0000) (λ x. 1) (7 ∷ 300 ∷ [])).0
      (7 ∷ 300 ∷ [])
    ≡ new_balloon 0x1000_0000
process_deflate-process_inflate_example =
    process_deflate-process_inflate zeroed (new_balloon 0x1000_0000) (λ x. 1) (7 ∷ 300 ∷ [])
      (omega arith, (omega arith, tt)) (omega arith)
