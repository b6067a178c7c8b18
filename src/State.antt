-- ===== src/State.antt =====
-- The state of the driver: the globals of wfpdriver/devctrl.c, datalinkctx.c and establishedctx.c,
-- the g_monitorflag of callouts.c, and what the kernel holds for them.
use wfpdriver.Shared.{ℕ, Bool, Option, List, [], Memory, false}
use wfpdriver.Nt.{Status}

-- NF_DATALINK_BUFFER and NF_FLOWESTABLISHED_BUFFER; the linkage is the list that holds it.
pub record Packet : Type 0 where
  pub data_buffer : Option (List ℕ)
  pub data_length : ℕ

-- SHARED_MEMORY; 0 is NULL. `mapped` is how many bytes can be written through kernelVa.
pub record SharedMemory : Type 0 where
  pub mdl : ℕ
  pub user_va : ℕ
  pub kernel_va : ℕ
  pub buffer_length : ℕ
  pub mapped : ℕ
  pub bytes : Memory

-- After memset(pSharedMemory, 0, sizeof(SHARED_MEMORY)).
abbrev pub no_shared_memory : SharedMemory
no_shared_memory = record {
  mdl = 0;
  user_va = 0;
  kernel_va = 0;
  buffer_length = 0;
  mapped = 0;
  bytes = λ _. 0;
}

-- A read or write request; `read_length` is the length of either. `cancel` is irp->Cancel, `cancel_routine` whether a cancel routine is set.
pub record Irp : Type 0 where
  pub id : ℕ
  pub mdl_address : Bool
  pub system_address : Bool
  pub read_length : ℕ
  pub cancel : Bool
  pub cancel_routine : Bool

-- One IoCompleteRequest: the IoStatus it reports, and what a read stored in NF_READ_RESULT.length.
pub record Completion : Type 0 where
  pub irp_id : ℕ
  pub status : Status
  pub information : ℕ
  pub length : ℕ

-- The MDLs allocated and freed, and the mappings made and undone, so far.
pub record Mm : Type 0 where
  pub mdls : ℕ
  pub freed_mdls : ℕ
  pub kernel_maps : ℕ
  pub kernel_unmaps : ℕ
  pub user_maps : ℕ
  pub user_unmaps : ℕ

-- `datalink_live`, `flow_live` and `query_live` count the entries taken from each lookaside list and
-- not given back. A list's head is the first entry.
pub record Driver : Type 0 where
  pub monitor_flag : ℕ
  pub shutdown : Bool
  pub io_event : Bool
  pub query : List ℕ
  pub query_live : ℕ
  pub datalink : List Packet
  pub datalink_live : ℕ
  pub flows : List Packet
  pub flow_live : ℕ
  pub pended : List Irp
  pub completed : List Completion
  pub in_buf : SharedMemory
  pub out_buf : SharedMemory
  pub mm : Mm

-- After devctrl_init, datalinkctx_init and establishedctx_init; the globals start zeroed.
abbrev pub started : Driver
started = record {
  monitor_flag = 0;
  shutdown = false;
  io_event = false;
  query = [];
  query_live = 0;
  datalink = [];
  datalink_live = 0;
  flows = [];
  flow_live = 0;
  pended = [];
  completed = [];
  in_buf = no_shared_memory;
  out_buf = no_shared_memory;
  mm = record {
    mdls = 0;
    freed_mdls = 0;
    kernel_maps = 0;
    kernel_unmaps = 0;
    user_maps = 0;
    user_unmaps = 0;
  };
}
