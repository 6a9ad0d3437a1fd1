-- ===== src/Sdo/Abort.antt =====
-- The abort codes of zencan-common/src/sdo.rs as `u32`. The way back, `AbortCode::try_from(u32)`, is made
-- by the macro `IntEnum`, and a parameter of what uses it.
use zencan.Base.{ℕ}

pub data AbortCode : Type 0 where
  toggle_not_alternated : AbortCode
  sdo_timeout : AbortCode
  invalid_command_specifier : AbortCode
  invalid_block_size : AbortCode
  invalid_sequence_number : AbortCode
  crc_error : AbortCode
  out_of_memory : AbortCode
  unsupported_access : AbortCode
  write_only : AbortCode
  read_only : AbortCode
  no_such_object : AbortCode
  unnallowed_pdo : AbortCode
  pdo_too_long : AbortCode
  incompatible_parameter : AbortCode
  hardware_error : AbortCode
  data_type_mismatch : AbortCode
  data_type_mismatch_length_high : AbortCode
  data_type_mismatch_length_low : AbortCode
  no_such_sub_index : AbortCode
  invalid_value : AbortCode
  value_too_high : AbortCode
  value_too_low : AbortCode
  resource_not_available : AbortCode
  general_error : AbortCode
  cant_store : AbortCode
  cant_store_local_control : AbortCode
  cant_store_device_state : AbortCode
  no_object_dict : AbortCode
  no_data : AbortCode

-- `abort_code as u32`.
unfoldable pub code : AbortCode → ℕ
code toggle_not_alternated = 0x0503_0000
code sdo_timeout = 0x0504_0000
code invalid_command_specifier = 0x0504_0001
code invalid_block_size = 0x0504_0002
code invalid_sequence_number = 0x0504_0003
code crc_error = 0x0504_0004
code out_of_memory = 0x0504_0005
code unsupported_access = 0x0601_0000
code write_only = 0x0601_0001
code read_only = 0x0601_0002
code no_such_object = 0x0602_0000
code unnallowed_pdo = 0x0604_0041
code pdo_too_long = 0x0604_0042
code incompatible_parameter = 0x0604_0043
code hardware_error = 0x0606_0000
code data_type_mismatch = 0x0607_0010
code data_type_mismatch_length_high = 0x0607_0012
code data_type_mismatch_length_low = 0x0607_0013
code no_such_sub_index = 0x0609_0011
code invalid_value = 0x0609_0030
code value_too_high = 0x0609_0031
code value_too_low = 0x0609_0032
code resource_not_available = 0x060A_0023
code general_error = 0x0800_0000
code cant_store = 0x0800_0020
code cant_store_local_control = 0x0800_0021
code cant_store_device_state = 0x0800_0022
code no_object_dict = 0x0800_0023
code no_data = 0x0800_0024
