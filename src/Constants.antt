-- ===== src/Constants.antt =====
-- shared/include/constants.h: the sizes and the structures that go over the wire, at the default
-- disk sizes of 10 GiB.
use timelock_drive.Prelude.{ℕ, ◌+◌, ◌-◌, ◌*◌, ◌/◌, ◌^◌}

pub data DiskCommand : Type 0 where
  read write sync init_counters finish timelock unfreeze get_md_tag identify : DiskCommand

pub record MessageHeader : Type 0 where
  pub payload_size : ℕ
  pub num_data_ranges : ℕ
  pub num_md_blocks : ℕ
  pub disk_cmd : DiskCommand

-- `pba` is an `unsigned int`, `num_blocks` a `uint8_t`.
pub record DataRange : Type 0 where
  pub pba : ℕ
  pub num_blocks : ℕ

pub record MetadataEntry : Type 0 where
  pub keep_duration : ℕ
  pub time_written : ℕ

-- `arr` is the array of LENGTH_TD_LOG_BLOCK addresses.
pub record TdMetadataLogBlock : Type 0 where
  pub arr : ℕ → ℕ
  pub keep_duration : ℕ
  pub current_time : ℕ
  pub pointer_next : ℕ

-- UINT32_MAX, and the modulus of `unsigned int`.
abbrev pub uint32_max : ℕ
uint32_max = 2 ^ 32 - 1

abbrev pub block_size : ℕ
block_size = 4096

abbrev pub blocks_per_segment : ℕ
blocks_per_segment = 1024

-- sizeof(DataRange), sizeof(MessageHeader)
abbrev pub data_range_size : ℕ
data_range_size = 8

abbrev pub std_msg_header_size : ℕ
std_msg_header_size = 12

abbrev pub max_md_blocks_in_header : ℕ
max_md_blocks_in_header = 5

abbrev pub max_mapping_count : ℕ
max_mapping_count = 262144 / block_size

abbrev pub total_physical_num_blocks : ℕ
total_physical_num_blocks = 10 * 1073741824 / block_size

abbrev pub total_logical_num_blocks : ℕ
total_logical_num_blocks = 10 * 1073741824 / block_size

-- BLOCK_SIZE / sizeof(MetadataEntry)
abbrev pub metadata_entries_per_block : ℕ
metadata_entries_per_block = block_size / 8

abbrev pub total_num_metadata_blocks : ℕ
total_num_metadata_blocks = total_physical_num_blocks / metadata_entries_per_block

abbrev pub length_version_log_block : ℕ
length_version_log_block = (block_size - 2 * 4) / (4 + 4)

abbrev pub length_td_log_block : ℕ
length_td_log_block = (block_size - 3 * 4) / 4

abbrev pub default_keep_duration : ℕ
default_keep_duration = 60
