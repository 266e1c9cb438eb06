-- ===== src/Registers.antt =====
-- Constants of include/tpm2_private.h and include/tpm2.h, and the chip data of
-- include/tpm2_chip.h and src/tpm2_chip.c.
use lib_tpm.Base.{ℕ, ◌*◌, ◌%◌, ◌^◌, ◌-◌}

abbrev pub tpm_fifo_reg_access : ℕ
tpm_fifo_reg_access = 0x000

abbrev pub tpm_fifo_reg_status : ℕ
tpm_fifo_reg_status = 0x018

abbrev pub tpm_fifo_reg_burst_count_lo : ℕ
tpm_fifo_reg_burst_count_lo = 0x019

abbrev pub tpm_fifo_reg_burst_count_hi : ℕ
tpm_fifo_reg_burst_count_hi = 0x020

abbrev pub tpm_fifo_reg_data_fifo : ℕ
tpm_fifo_reg_data_fifo = 0x024

abbrev pub tpm_fifo_reg_vendid : ℕ
tpm_fifo_reg_vendid = 0xf00

abbrev pub tpm_fifo_reg_revid : ℕ
tpm_fifo_reg_revid = 0xf04

abbrev pub tpm_access_active_locality : ℕ
tpm_access_active_locality = 2 ^ 5

abbrev pub tpm_access_valid : ℕ
tpm_access_valid = 2 ^ 7

abbrev pub tpm_access_relinquish_locality : ℕ
tpm_access_relinquish_locality = 2 ^ 5

abbrev pub tpm_access_request_use : ℕ
tpm_access_request_use = 2 ^ 1

abbrev pub tpm_access_request_pending : ℕ
tpm_access_request_pending = 2 ^ 2

abbrev pub tpm_stat_valid : ℕ
tpm_stat_valid = 2 ^ 7

abbrev pub tpm_stat_command_ready : ℕ
tpm_stat_command_ready = 2 ^ 6

abbrev pub tpm_stat_go : ℕ
tpm_stat_go = 2 ^ 5

abbrev pub tpm_stat_avail : ℕ
tpm_stat_avail = 2 ^ 4

abbrev pub tpm_stat_expect : ℕ
tpm_stat_expect = 2 ^ 3

abbrev pub tpm_header_size : ℕ
tpm_header_size = 10

abbrev pub max_size_cmdbuf : ℕ
max_size_cmdbuf = 256

abbrev pub max_cmd_data : ℕ
max_cmd_data = max_size_cmdbuf - tpm_header_size

abbrev pub max_digest_size : ℕ
max_digest_size = 48

-- `struct tpm_chip_timeouts`, in milliseconds.
pub record TpmChipTimeouts : Type 0 where
  pub msec_a : ℕ
  pub msec_b : ℕ
  pub msec_c : ℕ
  pub msec_d : ℕ

-- `struct tpm_chip_data`
pub record TpmChipData : Type 0 where
  pub locality : ℕ
  pub timeouts : TpmChipTimeouts

abbrev pub tpm_timeouts : TpmChipTimeouts
tpm_timeouts = record { msec_a = 750; msec_b = 2000; msec_c = 200; msec_d = 30 }

-- The initial locality is -1 in a `uint8_t`.
abbrev pub tpm_chip_data : TpmChipData
tpm_chip_data = record { locality = 2 ^ 8 - 1; timeouts = tpm_timeouts }

-- `LOCALITY_START_ADDRESS (x, y)`
abbrev pub locality_start_address : ℕ → ℕ
locality_start_address y = 0x1000 * y % 2 ^ 16

abbrev pub tpm_st_no_sessions : ℕ
tpm_st_no_sessions = 0x8001

abbrev pub tpm_st_sessions : ℕ
tpm_st_sessions = 0x8002

abbrev pub tpm_min_auth_size : ℕ
tpm_min_auth_size = 9

abbrev pub tpm_rs_pw : ℕ
tpm_rs_pw = 0x40000009

abbrev pub tpm_rh_platform : ℕ
tpm_rh_platform = 0x4000000c

abbrev pub tpm_zero_nonce_size : ℕ
tpm_zero_nonce_size = 0

abbrev pub tpm_attributes_disable : ℕ
tpm_attributes_disable = 0

abbrev pub tpm_zero_hmac_size : ℕ
tpm_zero_hmac_size = 0

abbrev pub tpm_single_hash_count : ℕ
tpm_single_hash_count = 1

abbrev pub tpm_cmd_startup : ℕ
tpm_cmd_startup = 0x0144

abbrev pub tpm_cmd_pcr_read : ℕ
tpm_cmd_pcr_read = 0x017e

abbrev pub tpm_cmd_pcr_extend : ℕ
tpm_cmd_pcr_extend = 0x0182

abbrev pub tpm_cmd_get_capability : ℕ
tpm_cmd_get_capability = 0x017a

abbrev pub tpm_cmd_pcr_allocate : ℕ
tpm_cmd_pcr_allocate = 0x012b

abbrev pub tpm_cap_algs : ℕ
tpm_cap_algs = 0x00000000

abbrev pub tpm_cap_pcrs : ℕ
tpm_cap_pcrs = 0x00000005

abbrev pub tpm_response_success : ℕ
tpm_response_success = 0x0000

abbrev pub tpm_rc_initialize : ℕ
tpm_rc_initialize = 0x0100

abbrev pub tpm_alg_null : ℕ
tpm_alg_null = 0x0010

abbrev pub tpm_pcr_select_size : ℕ
tpm_pcr_select_size = 3

abbrev pub tpm_default_page_count : ℕ
tpm_default_page_count = 16

abbrev pub tpm_max_pages : ℕ
tpm_max_pages = 64

abbrev pub tpm_max_pcr_selections : ℕ
tpm_max_pcr_selections = 8

abbrev pub tpm_max_alg_properties : ℕ
tpm_max_alg_properties = 64
