-- ===== src/Storage/Qcow2/Image/Allocate.antt =====
-- About storage/qcow2.rs: Qcow2File.
-- A cluster is allocated for a write: the guest still sees the disk from before.
use clone.Prelude.{
  ℕ, ap, ◌∙◌, ◌+◌, ◌%◌, ◌<◌, ◌≡◌, ◌≢◌, refl, sym, inl, inr, none, some, List, arith, Option-cases,
}
use clone.Storage.File.{DiskFile}
use clone.Storage.Qcow2.Header.{cluster_size}
use clone.Storage.Qcow2.Image.{Qcow2File}
use clone.Storage.Qcow2.Image.Cluster.{l1_index, l2_index}
use clone.Storage.Qcow2.Image.Sound.{Owner, cluster_size_bounds, IsLaid}
use clone.Storage.Qcow2.Image.View.{mapping}
use clone.Storage.Qcow2.Image.Disk.{backing_byte, guest_byte}
use clone.Storage.Qcow2.Image.Grow.{grow, IsGrown, mapping_grown}
use native.Mathlib.Nat.{mod-lt}
use clone.Storage.Qcow2.Image.Sound.{block}
use clone.Storage.Qcow2.Image.Disk.{IsMapped, mapping-IsMapped, guest_byte-mapping}

module _ {B : Type 0} (peek : B → ℕ → ℕ) where
  -- Two images with the same clusters, and the same bytes in them, are the same disk.
  pub guest_byte_kept :
      (q r : Qcow2File B) (x : ℕ)
      → r.header ≡ q.header
      → backing_byte peek r.backing x ≡ backing_byte peek q.backing x
      → mapping r x ≡ mapping q x
      → ((g : ℕ)
          → mapping q x ≡ some g
          → r.file.content (g + x % cluster_size q.header)
            ≡ q.file.content (g + x % cluster_size q.header))
      → guest_byte peek r x ≡ guest_byte peek q x
  guest_byte_kept q r x same_header same_backing same_map same_content =
      elim (Option-cases (mapping q x)) [
        | inl z ↦
            guest_byte-mapping peek r x none (same_map ∙ z)
            ∙ same_backing
            ∙ sym (guest_byte-mapping peek q x none z)
        | inr (g, at) ↦
            guest_byte-mapping peek r x (some g) (same_map ∙ at)
            ∙ ap (λ h. r.file.content (g + x % cluster_size h)) same_header
            ∙ same_content g at
            ∙ sym (guest_byte-mapping peek q x (some g) at)
      ]

  pub guest_byte_grown :
      {own own' : ℕ → Owner} (q : Qcow2File B) (f : DiskFile) (t : List ℕ) (n x : ℕ)
      → IsLaid own q
      → IsGrown block own own' q f t n
      → x < q.header.size
      → guest_byte peek (grow q f t n) x ≡ guest_byte peek q x
  guest_byte_grown {own} q f t n x v g l =
      guest_byte_kept q (grow q f t n) x refl refl (mapping_grown q f t n x v g l) λ h at.
        let m : IsMapped own q x h = mapping-IsMapped q x h v l at in
        let sizes = cluster_size_bounds q.header v.sized in
        let k : x % cluster_size q.header < cluster_size q.header =
          mod-lt x (omega (arith, sizes)) in
        let mine = m.held.mine (x % cluster_size q.header) k in
        g.same_bytes (h + x % cluster_size q.header) (omega (arith, k, m.held.inside))
          λ b. guest_ne (l1_index q.header x) (l2_index q.header x) (sym mine ∙ b)
    where
      guest_ne : (i j : ℕ) → Owner.guest i j ≢ block
      guest_ne i j e = cc
