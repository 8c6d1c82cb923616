-- ===== src/Virtio/Balloon/Pages.antt =====
-- virtio/balloon.rs: which memory an inflation releases, against GuestMem.
use clone.Prelude.{
  ap, ◌∙◌, List, [], ◌∷◌, length, ℕ, ◌+◌, ◌-◌, ◌*◌, ◌%◌, ◌^◌, ◌≤◌, ◌<◌, ◌≡◌, ◌≢◌, ◌⊎◌, refl, none,
  some, arith, leb, if◌then◌else◌,
}
use clone.Memory.Store.{Store}
use clone.Memory.Guest.{from_raw_with_hole, gpa_to_offset}
use clone.Virtio.Balloon.{
  VirtioBalloon, host_page, release_pages, process_inflate, process_deflate, mmio_hole_start,
  mmio_hole_end,
}

-- For a guest with more memory than lies below the hole at 3 to 4 GiB, less than 2 ^ 62 bytes, and
-- a balloon that was told the end of the guest's addresses: a page of the balloon's protocol that
-- is clear of the hole and inside the addresses is released at exactly the offset where GuestMem
-- has it.
pub host_page_in_place :
    (d : VirtioBalloon) (size pfn : ℕ)
    → mmio_hole_start < size
    → size < 2 ^ 62
    → d.guest_mem_size ≡ size + (mmio_hole_end - mmio_hole_start)
    → pfn < 2 ^ 32
    → (pfn * 4096 + 4096 ≤ mmio_hole_start) ⊎ (mmio_hole_end ≤ pfn * 4096)
    → pfn * 4096 + 4096 ≤ d.guest_mem_size
    → host_page d pfn
      ≡ gpa_to_offset (from_raw_with_hole size mmio_hole_start mmio_hole_end) (pfn * 4096)
unfolding host_page gpa_to_offset
host_page_in_place d size pfn big small whole narrow beside inside = ground arith

-- For a guest with more memory than lies below the hole and a balloon that was told the size of the
-- memory, as on a boot, and not the end of its addresses: a page above the hole that ends past that
-- size is refused and stays as it is when it is inflated, although GuestMem has memory for it.
pub boot_size_refuses :
    (release : Store → ℕ → ℕ → Store) (s : Store) (d : VirtioBalloon) (size pfn : ℕ)
    → mmio_hole_start < size
    → size < 2 ^ 62
    → d.guest_mem_size ≡ size
    → mmio_hole_end ≤ pfn * 4096
    → size < pfn * 4096 + 4096
    → pfn * 4096 < size + (mmio_hole_end - mmio_hole_start)
    → (host_page d pfn ≡ none)
      × ((process_inflate release d s (pfn ∷ [])).1 ≡ s)
      × (gpa_to_offset (from_raw_with_hole size mmio_hole_start mmio_hole_end) (pfn * 4096) ≢ none)
unfolding host_page gpa_to_offset process_inflate release_pages
boot_size_refuses release s d size pfn big small boot high out backed =
    let skipped : host_page d pfn ≡ none = ground arith in
    (skipped, rw (process_inflate, release_pages, skipped) refl, ground arith)

-- Every page is in range.
abbrev pub AllAccepted : VirtioBalloon → List ℕ → Type 0
AllAccepted d [] = Unit {0}
AllAccepted d (pfn ∷ pfns) = (pfn * 4096 + 4096 ≤ d.guest_mem_size) × AllAccepted d pfns

accepted_page :
    (d : VirtioBalloon) (pfn : ℕ)
    → pfn * 4096 + 4096 ≤ d.guest_mem_size
    → (offset : ℕ) × (host_page d pfn ≡ some offset)
unfolding host_page
accepted_page d pfn h = (
  if leb mmio_hole_end (pfn * 4096)
      then mmio_hole_start + (pfn * 4096 - mmio_hole_end)
      else pfn * 4096,
  ground arith,
)

released_all :
    (release : Store → ℕ → ℕ → Store) (d : VirtioBalloon) (s : Store) (pfns : List ℕ)
    → AllAccepted d pfns
    → (release_pages release d s pfns).1 ≡ length pfns
unfolding release_pages
released_all release d s [] h = refl
released_all release d s (pfn ∷ pfns) h =
    let (offset, there) = accepted_page d pfn h.0 in
    let rest = release_pages release d (release s offset 4096) pfns in
    let e : (release_pages release d s (pfn ∷ pfns)).1 ≡ rest.1 + 1 =
      rw (release_pages, there) refl in
    e ∙ omega (arith, released_all release d (release s offset 4096) pfns h.1)

-- If every page of a list is in range, and the balloon's count with them stays below 2 ^ 32, then a
-- deflation by the same list after its inflation leaves the device as it was.
pub process_deflate-process_inflate :
    (release : Store → ℕ → ℕ → Store) (d : VirtioBalloon) (s : Store) (pfns : List ℕ)
    → AllAccepted d pfns
    → d.actual + length pfns < 2 ^ 32
    → process_deflate (process_inflate release d s pfns).0 pfns ≡ d
unfolding process_inflate process_deflate
process_deflate-process_inflate release d s pfns h small =
    let n = released_all release d s pfns h in
    let wrap : length pfns % 2 ^ 32 ≡ length pfns = omega (arith, small) in
    ap (λ a. record d { actual = a }) (rw n (omega (arith, small)))
