-- ===== src/Devctrl/Dispatch.antt =====
-- wfpdriver/devctrl.c: devctrl_dispatch and the requests other than reads. `none` is an access
-- violation.
use wfpdriver.Shared.{
  ℕ, ◌+◌, ◌-◌, ◌%◌, ◌^◌, Bool, Option, none, some, ◌>>=◌, List, [], ◌∷◌, ltb, if◌then◌else◌, read32,
}
use wfpdriver.Nt.{
  Status, success, insufficient_resources, sizeof_nf_data, sizeof_nf_read_result, sizeof_nf_buffers,
}
use wfpdriver.State.{Driver, Irp}
use wfpdriver.Packets.Datalink
use wfpdriver.Packets.Established
use wfpdriver.Devctrl.Push.{setmonitor}
use wfpdriver.Devctrl.Reads.{complete, read1}
use wfpdriver.Devctrl.SharedMem.{MmAnswers, ReplyBuffer, free_buffers, open_mem}

-- The last arguments of CTL_CODE in devctrl.h.
pub data IoControl : Type 0 where
  enable_monitor stop_monitor open_sharemem disentable_monitor : IoControl
  unknown : ℕ → IoControl

-- devctrl_clean's loop.
unfoldable pub clean_queries : List ℕ → Driver → Driver
clean_queries [] d = record d { query = [] }
clean_queries (c ∷ cs) d = clean_queries cs (record d { query = cs; query_live = d.query_live - 1 })

unfoldable pub clean : Driver → Driver
unfolding clean_queries free_buffers
clean d = free_buffers (clean_queries d.query d)

-- devctrl_processRequest: bufferSize is read first, and no code is handled.
unfoldable pub process_request : ℕ → Driver → Option ℕ
process_request buffer_size d =
    if ltb d.out_buf.mapped 12
    then none
    else if ltb buffer_size (sizeof_nf_data + read32 d.out_buf.bytes 8 - 1)
    then some 0
    else some 0

-- devctrl_write. `length` is pRes->length, which is cast to ULONG; the MDL of a request without data
-- is NULL. The IRP's Information starts as 0.
unfoldable pub write_request : Irp → ℕ → Driver → Option (Status × Driver)
unfolding process_request complete
write_request irp length d =
    if irp.mdl_address
    then if irp.system_address
      then if ltb irp.read_length sizeof_nf_read_result
        then some (insufficient_resources, complete irp.id insufficient_resources 0 0 d)
        else elim (process_request (length % 2 ^ 32) d) [
          | none ↦ none
          | some information ↦ some (success, complete irp.id success information 0 d)
        ]
      else some (insufficient_resources, complete irp.id insufficient_resources 0 0 d)
    else none

unfoldable pub create_request : ℕ → Driver → Status × Driver
unfolding complete
create_request id d = (success, complete id success 0 0 d)

-- devctrl_close: monitoring stops, and the packets and queries that wait are dropped with the shared
-- memory; the pended reads stay.
unfoldable pub close_request : ℕ → Driver → Status × Driver
unfolding complete clean Established.clean Datalink.clean setmonitor
close_request id d = (
  success,
  complete id success 0 0 (clean (Datalink.clean (Established.clean (setmonitor 0 d).1))),
)

-- The answer to every request that no case returns for.
unfoldable pub fall_through : ℕ → Driver → Status × Driver
unfolding complete
fall_through id d = (success, complete id success sizeof_nf_buffers 0 d)

-- IRP_MJ_DEVICE_CONTROL, with the answers of the memory manager for CTL_DEVCTRL_OPEN_SHAREMEM.
unfoldable pub device_control :
    ℕ → ReplyBuffer → ℕ → MmAnswers → MmAnswers → IoControl → Driver → Option (Status × Driver)
unfolding fall_through setmonitor
device_control id buffer output_length a b enable_monitor d =
    some (fall_through id (setmonitor 1 d).1)
device_control id buffer output_length a b disentable_monitor d =
    some (fall_through id (setmonitor 0 d).1)
device_control id buffer output_length a b open_sharemem d = do
  (status, reply, d1) ← open_mem id buffer output_length a b d
  some (status, d1)
device_control id buffer output_length a b stop_monitor d = some (fall_through id d)
device_control id buffer output_length a b (unknown c) d = some (fall_through id d)

-- A request by its major function.
pub data Request : Type 0 where
  create close other : Request
  read : Bool → Request
  write : ℕ → Request
  control : ReplyBuffer → ℕ → MmAnswers → MmAnswers → IoControl → Request

unfoldable pub dispatch : Irp → Request → Driver → Option (Status × Driver)
unfolding create_request close_request fall_through device_control write_request read1
dispatch irp create d = some (create_request irp.id d)
dispatch irp close d = some (close_request irp.id d)
dispatch irp other d = some (fall_through irp.id d)
dispatch irp (read raced) d = some (read1 raced irp d)
dispatch irp (write length) d = write_request irp length d
dispatch irp (control buffer output_length a b code) d =
    device_control irp.id buffer output_length a b code d
