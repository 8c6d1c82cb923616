-- ===== src/Virtio/Mmio/Registers.antt =====
-- virtio/mmio.rs, `mod reg`: the registers below the device's configuration space.
use clone.Prelude.{ℕ, ◌==◌, if◌then◌else◌}

pub data Register : Type 0 where
  magic_value version device_id vendor_id : Register
  device_features device_features_sel driver_features driver_features_sel : Register
  queue_sel queue_num_max queue_num queue_ready queue_notify : Register
  interrupt_status interrupt_ack status : Register
  queue_desc_low queue_desc_high queue_avail_low queue_avail_high : Register
  queue_used_low queue_used_high : Register
  shm_sel shm_len_low shm_len_high shm_base_low shm_base_high : Register
  config_generation unknown : Register

abbrev pub offset_of : Register → ℕ
offset_of magic_value = 0x000
offset_of version = 0x004
offset_of device_id = 0x008
offset_of vendor_id = 0x00c
offset_of device_features = 0x010
offset_of device_features_sel = 0x014
offset_of driver_features = 0x020
offset_of driver_features_sel = 0x024
offset_of queue_sel = 0x030
offset_of queue_num_max = 0x034
offset_of queue_num = 0x038
offset_of queue_ready = 0x044
offset_of queue_notify = 0x050
offset_of interrupt_status = 0x060
offset_of interrupt_ack = 0x064
offset_of status = 0x070
offset_of queue_desc_low = 0x080
offset_of queue_desc_high = 0x084
offset_of queue_avail_low = 0x090
offset_of queue_avail_high = 0x094
offset_of queue_used_low = 0x0a0
offset_of queue_used_high = 0x0a4
offset_of shm_sel = 0x0ac
offset_of shm_len_low = 0x0b0
offset_of shm_len_high = 0x0b4
offset_of shm_base_low = 0x0b8
offset_of shm_base_high = 0x0bc
offset_of config_generation = 0x0fc
offset_of unknown = 0x100

-- The register that an offset below 0x100 names, by the arms of the two matches.
unfoldable pub register : ℕ → Register
register offset =
    if offset == 0x000
    then magic_value
    else if offset == 0x004
    then version
    else if offset == 0x008
    then device_id
    else if offset == 0x00c
    then vendor_id
    else if offset == 0x010
    then device_features
    else if offset == 0x014
    then device_features_sel
    else if offset == 0x020
    then driver_features
    else if offset == 0x024
    then driver_features_sel
    else if offset == 0x030
    then queue_sel
    else if offset == 0x034
    then queue_num_max
    else if offset == 0x038
    then queue_num
    else if offset == 0x044
    then queue_ready
    else if offset == 0x050
    then queue_notify
    else if offset == 0x060
    then interrupt_status
    else if offset == 0x064
    then interrupt_ack
    else if offset == 0x070
    then status
    else if offset == 0x080
    then queue_desc_low
    else if offset == 0x084
    then queue_desc_high
    else if offset == 0x090
    then queue_avail_low
    else if offset == 0x094
    then queue_avail_high
    else if offset == 0x0a0
    then queue_used_low
    else if offset == 0x0a4
    then queue_used_high
    else if offset == 0x0ac
    then shm_sel
    else if offset == 0x0b0
    then shm_len_low
    else if offset == 0x0b4
    then shm_len_high
    else if offset == 0x0b8
    then shm_base_low
    else if offset == 0x0bc
    then shm_base_high
    else if offset == 0x0fc
    then config_generation
    else unknown
