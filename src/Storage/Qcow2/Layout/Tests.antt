-- ===== src/Storage/Qcow2/Layout/Tests.antt =====
-- The metadata of an image of 1 GiB in the default clusters, and of one that is laid out wrongly.
use clone.Prelude.{◌*◌, ◌/◌, ◌≡◌, ◌≤◌, ◌<◌, refl, arith}
use clone.Storage.Qcow2.Layout.{layout, place, refcount_offset}
use clone.Storage.Qcow2.Layout.Regions.{l1_covers, refcount_overruns}

default_image : layout 0x4000_0000 16 ≡ place 0x1_0000 2 1
unfolding layout
default_image = refl

default_end : (layout 0x4000_0000 16).file_end ≡ 0x4_0000
unfolding layout
default_end = refl

-- About 1 GB in clusters of 512 bytes: the L1 table takes 509 clusters.
small_clusters : layout 1_067_450_368 9 ≡ place 512 32576 509
unfolding layout
small_clusters = refl

l1_covers_example :
    let l = layout 0x4000_0000 16 in
    (0x4000_0000 ≤ l.l1_size * (l.cluster_size / 8) * l.cluster_size)
    × (l.l1_size * 8 ≤ l.l1_clusters * l.cluster_size)
    × (l.file_end ≡ l.total_meta_clusters * l.cluster_size)
l1_covers_example = l1_covers 0x4000_0000 16 (omega arith) (omega arith) (omega arith)

refcount_overruns_example :
    let l = place (256 * 2) 32576 509 in
    (2 * 256 < l.total_meta_clusters) × (refcount_offset l (2 * 256) ≡ l.l1_table_offset)
refcount_overruns_example =
    refcount_overruns 256 2 32576 509 (omega arith) (omega arith) (omega arith) refl
