-- ===== src/Nt.antt =====
-- The NTSTATUS values that wfpdriver/*.c returns, and the codes and sizes of wfpdriver/public.h
-- on x64. The driver's headers set no packing, so the compiler's natural alignment applies.
use wfpdriver.Shared.{ℕ, ◌*◌, ◌%◌, Bool, true, false}

-- FALSE returned as an NTSTATUS is 0, which is `success`. `truncated` is a value that went through a
-- BOOLEAN: a number below 256.
pub data Status : Type 0 where
  success pending unsuccessful no_memory invalid_parameter : Status
  insufficient_resources cancelled : Status
  failed : ℕ → Status
  truncated : ℕ → Status

-- NT_SUCCESS: the sign bit is clear. `failed` is any other error code of a kernel call.
abbrev pub nt_success : Status → Bool
nt_success success = true
nt_success pending = true
nt_success unsuccessful = false
nt_success no_memory = false
nt_success invalid_parameter = false
nt_success insufficient_resources = false
nt_success cancelled = false
nt_success (failed n) = false
nt_success (truncated n) = true

abbrev low_byte : Status → ℕ
low_byte success = 0
low_byte pending = 0x03
low_byte unsuccessful = 0x01
low_byte no_memory = 0x17
low_byte invalid_parameter = 0x0d
low_byte insufficient_resources = 0x9a
low_byte cancelled = 0x20
low_byte (failed n) = n % 256
low_byte (truncated n) = n

-- An NTSTATUS returned from a function of type BOOLEAN.
unfoldable pub as_boolean : Status → Status
as_boolean success = success
as_boolean s = truncated (low_byte s)

-- enum _NF_DATA_CODE
abbrev pub nf_datalink_packet : ℕ
nf_datalink_packet = 1

abbrev pub nf_flowctx_packet : ℕ
nf_flowctx_packet = 2

-- sizeof(NF_DATA): three 4-byte fields and char[1], padded to a multiple of 4.
abbrev pub sizeof_nf_data : ℕ
sizeof_nf_data = 16

-- offsetof(NF_DATA, buffer)
abbrev pub offset_buffer : ℕ
offset_buffer = 12

abbrev pub sizeof_nf_read_result : ℕ
sizeof_nf_read_result = 8

abbrev pub sizeof_nf_buffers : ℕ
sizeof_nf_buffers = 32

-- NF_UDP_PACKET_BUF_SIZE is the text `2 * 65536`; a factor behind it multiplies as written.
abbrev pub in_buf_size : ℕ
in_buf_size = 2 * 65536 * 50

abbrev pub out_buf_size : ℕ
out_buf_size = 2 * 65536 * 2
