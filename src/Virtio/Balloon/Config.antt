-- ===== src/Virtio/Balloon/Config.antt =====
-- virtio/balloon.rs: the configuration space, as the driver uses it.
use clone.Prelude.{ℕ, ap, ap₂, ◌<◌, ◌≡◌, ◌^◌, arith, to_le, from_le-to_le, replicate}
use clone.Virtio.Balloon.{VirtioBalloon, read_config, write_config}

-- What the driver reports as `actual`, below 2 ^ 32, is kept, read back, and leaves num_pages alone.
pub read_config-write_config :
    (d : VirtioBalloon) (n : ℕ)
    → d.num_pages < 2 ^ 32
    → n < 2 ^ 32
    → (write_config d 4 (to_le 4 n) ≡ record d { actual = n })
      × (read_config (write_config d 4 (to_le 4 n)) 0 (replicate 4 0) ≡ to_le 4 d.num_pages)
      × (read_config (write_config d 4 (to_le 4 n)) 4 (replicate 4 0) ≡ to_le 4 n)
unfolding read_config write_config
read_config-write_config d n small fits =
    let pages = from_le-to_le 4 d.num_pages (omega arith) in
    let reported = from_le-to_le 4 n (omega arith) in
    let e : write_config d 4 (to_le 4 n) ≡ record d { actual = n } =
      ap₂ (λ a b. record d { num_pages = a; actual = b }) pages reported in
    (e, ap (λ d. read_config d 0 (replicate 4 0)) e, ap (λ d. read_config d 4 (replicate 4 0)) e)
