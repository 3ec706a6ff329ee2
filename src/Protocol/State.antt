-- ===== src/Protocol/State.antt =====
-- The static variables of protocol_mgr.c, with the parts of the board that it drives: the flash,
-- the receive ring, and the bytes put on the protocol link so far.
use bootloader_ota.Base.{ℕ, ◌+◌, Bool, true, false, List}
use bootloader_ota.Layout.{slot_a}
use bootloader_ota.Flash.{Flash}
use bootloader_ota.Uart.{Uart}

abbrev pub proto_version : ℕ
proto_version = 1

abbrev pub frame_magic_0 : ℕ
frame_magic_0 = 0xaa

abbrev pub frame_magic_1 : ℕ
frame_magic_1 = 0x55

abbrev pub frame_header_size : ℕ
frame_header_size = 7

abbrev pub frame_crc_size : ℕ
frame_crc_size = 4

abbrev pub frame_off_cmd : ℕ
frame_off_cmd = 2

abbrev pub frame_off_length : ℕ
frame_off_length = 3

abbrev pub frame_off_seq : ℕ
frame_off_seq = 5

abbrev pub frame_off_data : ℕ
frame_off_data = 7

abbrev pub max_payload_size : ℕ
max_payload_size = 1024

-- The size of `rx_frame`.
abbrev pub rx_frame_size : ℕ
rx_frame_size = frame_header_size + max_payload_size + frame_crc_size

-- Commands and responses.
abbrev pub cmd_get_info : ℕ
cmd_get_info = 1

abbrev pub cmd_start_update : ℕ
cmd_start_update = 2

abbrev pub cmd_data : ℕ
cmd_data = 3

abbrev pub cmd_end_update : ℕ
cmd_end_update = 4

abbrev pub cmd_abort : ℕ
cmd_abort = 5

abbrev pub rsp_info : ℕ
rsp_info = 0x81

abbrev pub rsp_ack : ℕ
rsp_ack = 0x82

abbrev pub rsp_nack : ℕ
rsp_nack = 0x83

-- The error codes of a NACK.
abbrev pub err_crc : ℕ
err_crc = 1

abbrev pub err_seq : ℕ
err_seq = 2

abbrev pub err_length : ℕ
err_length = 3

abbrev pub err_flash : ℕ
err_flash = 4

abbrev pub err_size : ℕ
err_size = 5

abbrev pub err_slot : ℕ
err_slot = 6

abbrev pub err_state : ℕ
err_state = 7

abbrev pub err_global_crc : ℕ
err_global_crc = 8

abbrev pub err_proto_ver : ℕ
err_proto_ver = 9

abbrev pub timeout_start_ms : ℕ
timeout_start_ms = 2000

abbrev pub timeout_data_ms : ℕ
timeout_data_ms = 5000

-- `rx_state_t`
pub data RxState : Type 0 where
  rx_magic0 rx_magic1 rx_header rx_data rx_crc : RxState

-- `protocol_state_t`
pub data ProtocolState : Type 0 where
  proto_idle proto_receiving proto_complete : ProtocolState

pub record Machine : Type 0 where
  pub rx_state : RxState
  pub rx_frame : List ℕ
  pub rx_index : ℕ
  pub rx_expected : ℕ
  pub state : ProtocolState
  pub expected_seq : ℕ
  pub last_seq : ℕ
  pub target_slot : ℕ
  pub fw_size : ℕ
  pub fw_crc32 : ℕ
  pub fw_version : ℕ
  pub bytes_written : ℕ
  pub last_activity_ms : ℕ
  pub timeout_ms : ℕ
  pub cnt_frames_ok : ℕ
  pub cnt_frames_ko : ℕ
  pub flash : Flash
  pub uart : Uart
  pub tx : List ℕ

-- Which of the three states, as a test.
abbrev pub is_receiving : ProtocolState → Bool
is_receiving proto_receiving = true
is_receiving _ = false

abbrev pub is_idle : ProtocolState → Bool
is_idle proto_idle = true
is_idle _ = false

abbrev pub is_complete : ProtocolState → Bool
is_complete proto_complete = true
is_complete _ = false

unfoldable pub rx_reset : Machine → Machine
rx_reset m = record m { rx_state = rx_magic0; rx_index = 0; rx_expected = 0 }

unfoldable pub abort_transfer : Machine → Machine
abort_transfer m = record m {
  state = proto_idle;
  bytes_written = 0;
  expected_seq = 0;
  last_seq = 0xffff;
}

unfoldable pub protocol_init : Machine → Machine
protocol_init m = record (rx_reset m) {
  state = proto_idle;
  expected_seq = 0;
  last_seq = 0xffff;
  target_slot = slot_a;
  fw_size = 0;
  fw_crc32 = 0;
  fw_version = 0;
  bytes_written = 0;
  last_activity_ms = 0;
  timeout_ms = timeout_start_ms;
  cnt_frames_ok = 0;
  cnt_frames_ko = 0;
}

unfoldable pub protocol_get_state : Machine → ProtocolState
protocol_get_state m = m.state

unfoldable pub protocol_update_complete : Machine → Bool
protocol_update_complete m = is_complete m.state
