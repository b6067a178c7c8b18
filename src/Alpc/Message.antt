-- ===== src/Alpc/Message.antt =====
-- The messages of wfpdriver/HlprDriverAlpc.c and wfptools/HlprServerAlpc.cpp: PORT_MESSAGE on x64, and
-- CreateMsgMem. `none` is an access outside of a block.
use wfpdriver.Shared.{
  ℕ, ◌+◌, ◌-◌, ◌%◌, ◌^◌, Bool, not, ◌||◌, Option, none, some, List, ◌++◌, length, take, ltb, add64,
  le32, if◌then◌else◌,
}
use wfpdriver.Callouts.Info.{le16, zeros}

-- sizeof(PORT_MESSAGE): two ULONGs, a CLIENT_ID, a ULONG and its padding, a SIZE_T.
abbrev pub sizeof_port_message : ℕ
sizeof_port_message = 40

-- sizeof(UNIVERMSG)
abbrev pub sizeof_univermsg : ℕ
sizeof_univermsg = 8

-- A PORT_MESSAGE that was zeroed, with DataLength, TotalLength and MessageId set.
unfoldable pub port_message : ℕ → ℕ → ℕ → List ℕ
port_message data_length total_length id =
    le16 data_length ++ (le16 total_length ++ (zeros 20 ++ (le32 id ++ zeros 12)))

-- A value stored in a CSHORT, and a CSHORT converted to SIZE_T.
unfoldable pub as_cshort : ℕ → ℕ
as_cshort n = n % 2 ^ 16

unfoldable pub cshort_size : ℕ → ℕ
cshort_size n = if ltb n 32768 then n else n + 2 ^ 64 - 65536

-- The PORT_MESSAGE of a message with this many bytes: TotalLength is a CSHORT too.
unfoldable pub message_header : ℕ → ℕ → List ℕ
message_header data_length id =
    port_message data_length (as_cshort (data_length + sizeof_port_message)) id

-- CreateMsgMem: the header, and MessageSize bytes of the message. The block is written without a test
-- for NULL, and its size is a SIZE_T.
unfoldable pub create_msg_mem : Bool → List ℕ → ℕ → List ℕ → Option (List ℕ)
create_msg_mem allocated header size message =
    if not allocated
      || (ltb (add64 size sizeof_port_message) (sizeof_port_message + size)
          || ltb (length message) size)
    then none
    else some (header ++ take size message)
