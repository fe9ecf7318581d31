-- ===== src/Gatekeeper.antt =====
-- The other side of the wire, as the driver sees it: the messages of a WRITE request and of a
-- command, and a gatekeeper that answers them. The gatekeeper is a parameter; so is its state.
use timelock_drive.Prelude.{ℕ, ◌+◌, ◌*◌, List, length}
use timelock_drive.Constants.{
  MessageHeader, DataRange, TdMetadataLogBlock, write, block_size, data_range_size,
}
use timelock_drive.Recovery.{L2PBlock}
use timelock_drive.Control.{CachedTdMetadataBlock, Reply}

-- A block of the payload: one of the caller's, or a block of either log.
pub data Payload {ℓ} (A : Type ℓ) : Type ℓ where
  data_block : A → Payload A
  version_block : L2PBlock → Payload A
  timelock_block : TdMetadataLogBlock → Payload A

-- A WRITE request, in the order of the bytes on the wire.
pub record WriteMessage {ℓ} (A : Type ℓ) : Type ℓ where
  pub header : MessageHeader
  pub ranges : List DataRange
  pub md_blocks : List CachedTdMetadataBlock
  pub payload : List (Payload A)

-- sizeof(CachedTDMetadataBlock)
abbrev pub cached_block_size : ℕ
cached_block_size = block_size + 4 + 4 + 32

-- The header counts the bytes after it.
abbrev pub write_message {ℓ} :
    {A : Type ℓ} → List DataRange → List CachedTdMetadataBlock → List (Payload A) → WriteMessage A
write_message ranges md_blocks payload = record {
  header = record {
    payload_size =
        data_range_size * length ranges
        + cached_block_size * length md_blocks
        + block_size * length payload;
    num_data_ranges = length ranges;
    num_md_blocks = length md_blocks;
    disk_cmd = write;
  };
  ranges = ranges;
  md_blocks = md_blocks;
  payload = payload;
}

-- What the gatekeeper does with a request, and what the driver gets back.
pub record Gatekeeper (A G : Type 0) : Type 0 where
  pub on_write : WriteMessage A → G → Reply × G
  pub on_command : MessageHeader → G → Reply × G
