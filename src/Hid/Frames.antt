-- ===== src/Hid/Frames.antt =====
-- fidohid/fidohid.go: `frameInit`, `frameCont` and `initResponse`, and how they marshal.
use linux_id.Common.{
  ℕ, ◌-◌, [], ◌∷◌, ◌++◌, Bytes, be16, be32, length, replicate, ltb, if◌then◌else◌,
}
use linux_id.Hid.Types.{initial_packet_data_len, cont_packet_data_len}

pub record FrameInit : Type 0 where
  pub channel_id : ℕ
  pub command : ℕ
  pub payload : Bytes
  pub total_payload_len : ℕ

pub record FrameCont : Type 0 where
  pub channel_id : ℕ
  pub seq_no : ℕ
  pub payload : Bytes

-- The zero bytes that fill a frame up to `len` bytes of data.
abbrev pub pad_to : ℕ → Bytes → Bytes
pad_to len b = if ltb (length b) len then replicate (len - length b) 0 else []

unfoldable pub frame_init_marshal : FrameInit → Bytes
frame_init_marshal fi =
    be32 fi.channel_id
    ++ (fi.command
        ∷ (be16 fi.total_payload_len ++ (fi.payload ++ pad_to initial_packet_data_len fi.payload)))

unfoldable pub frame_cont_marshal : FrameCont → Bytes
frame_cont_marshal fi =
    be32 fi.channel_id ++ (fi.seq_no ∷ (fi.payload ++ pad_to cont_packet_data_len fi.payload))

pub record InitResponse : Type 0 where
  pub nonce : Bytes  -- [8]byte
  pub channel : ℕ
  pub protocol_version : ℕ
  pub major_device_version : ℕ
  pub minor_device_version : ℕ
  pub build_device_version : ℕ
  pub raw_capabilities : ℕ

unfoldable pub new_init_response : ℕ → Bytes → InitResponse
new_init_response channel_id nonce = record {
  nonce = nonce;
  channel = channel_id;
  protocol_version = 2;
  major_device_version = 1;
  minor_device_version = 0;
  build_device_version = 0;
  raw_capabilities = 0x04;
}

unfoldable pub init_response_marshal : InitResponse → Bytes
init_response_marshal resp =
    resp.nonce
    ++ (be32 resp.channel
        ++ (resp.protocol_version ∷ resp.major_device_version ∷ resp.minor_device_version
            ∷ resp.build_device_version ∷ resp.raw_capabilities ∷ []))
