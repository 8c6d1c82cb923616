-- ===== src/Memory/Paging/Tests.antt =====
-- A guest of 4 megabytes with no hole.
use clone.Prelude.{◌*◌, ◌^◌, ◌≡◌, refl, some, inl, arith}
use clone.Memory.Store.{Store}
use clone.Memory.Guest.{GuestMem, from_raw}
use clone.Memory.Paging.{setup_page_tables, num_gb}
use clone.Memory.Paging.Identity.{HasRoom, translate, identity_mapped}

abbrev guest : GuestMem
guest = from_raw (4 * 2 ^ 20)

abbrev blank : Store
blank j = 0

guest-HasRoom : HasRoom guest
guest-HasRoom = record { below = inl refl; inside = omega arith; small = omega arith }

gigabytes : (num_gb (4 * 2 ^ 20) ≡ 1) × (num_gb (3 * 2 ^ 30) ≡ 3) × (num_gb (2 ^ 37) ≡ 64)
gigabytes = (refl, refl, refl)

identity_mapped_example :
    (t : Store) × (setup_page_tables guest blank (4 * 2 ^ 20) ≡ some t)
    × (translate t 0x100000 ≡ some 0x100000)
identity_mapped_example =
    identity_mapped blank (4 * 2 ^ 20) 0x100000 guest-HasRoom (omega arith) (omega arith)
