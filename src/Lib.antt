-- ===== src/Lib.antt =====
-- WFPDriver is a Windows kernel driver with a console program. The driver registers callouts with the
-- Windows Filtering Platform; a callout turns a flow or a frame into a packet record and pushes it onto
-- one of two lists, with a query that says which list. A thread of the driver answers pended reads: it
-- moves the packets that the queries ask for into memory shared with the program, one NF_DATA record
-- after the other, and completes the read with the number of bytes. The program walks the records and
-- hands each to a handler.
--
-- The parts, and the files that model them:
--   Nt, State: wfpdriver/public.h and the globals of wfpdriver/devctrl.c, datalinkctx.c and
--     establishedctx.c, as the record `Driver`; NTSTATUS values as `Status`.
--   Packets: wfpdriver/datalinkctx.c and establishedctx.c. datalinkctx_pushdata is `pushdata`,
--     establishedctx_pushflowestablishedctx is `pushflowestablishedctx`; what the allocators answer is
--     an argument `Alloc`.
--   Devctrl: wfpdriver/devctrl.c. Push has the queries, Pop and Fill the way of the packets into the
--     shared buffer (devtrl_popDataLinkData, devtrl_popFlowestablishedData, devctrl_fillBuffer), Reads
--     the pended reads and a round of devctrl_ioThread, SharedMem the mapping of the buffers, Dispatch
--     devctrl_dispatch; Events puts the operations of the threads and callbacks into sequences. Overlap
--     has the halves of devtrl_popDataLinkData between which it holds no lock. Channel is what all that
--     promises, two stacks of packets. The other modules are proofs.
--   Callouts: the classify functions of wfpdriver/callouts.c. Flow and Redirect fill and push a flow's
--     record, Mac parses a frame in place; Info and Layout are the records and their bytes.
--   Lifecycle: wfpdriver/driver.c and the registration in wfpdriver/callouts.c. Engine is the log of
--     the calls of the filter engine, Registration callout_init and callout_free, Loading, Freeing and
--     Entry are DriverEntry, driverUnload and bfeStateCallback with the functions they call.
--   Tools: WorkThread is handleEventDispath and the loop of nf_workThread in wfptools/devctrl.cpp over
--     the bytes that the driver left in the shared buffer, ReadLoop its loop over the reads.
--     Handler is EventHandler and nf_getprocessinfo of wfptools/main.cpp, Paths its
--     DeviceDosPathToNtPath, FilePath its SplitFilePath and FindInMultiSz.
--   Process: wfpdriver/util.c. Flowctl: wfpdriver/flowctl.c.
--   Setup: the service calls of wfptools/main.cpp and the class of wfptools/devctrl.cpp. Scm is the log
--     of the calls of the service control manager, Service has CreateDriver, StartDriver, StopDriver
--     and GetServicesStatus, Install nf_driverInstall, Device the class DevctrlIoct and nf_monitor,
--     Init nf_init, Registry InstallDriver, Program the program wfptools_nf/main.cpp that loads the
--     library; Runs puts the service operations into sequences.
--   Alpc: the message port that the driver and the program had before the shared buffer. Message is
--     PORT_MESSAGE and CreateMsgMem, Port the driver's end in wfpdriver/HlprDriverAlpc.c, Server the
--     program's in wfptools/HlprServerAlpc.cpp with its queue and map. What the stack holds behind a
--     PORT_MESSAGE is an argument, and can be read; a message written there is a fault.
--   EndToEnd: the way of one flow through all of them.
--   Shared: lists, bytes in memory, C integers and copies, for all of them. Tests: concrete inputs.
--
-- How the code corresponds: an operation takes the state and returns a status and the new state. A
-- result `none` is an access violation, or a wait that nothing ends. Arithmetic of the code's unsigned
-- types has its wrap-around written out. Events come one after the other, each carried out to its end:
-- what can run where a round or a capture holds no lock is left out, but for a capture inside of the
-- pop of a frame. A lookaside list is a count of the entries out of it, or whether it was initialised
-- and deleted; what the memory manager gives and what it takes back are counted apart. The memory
-- manager, the I/O manager, the filter engine, NDIS, the service control manager and the allocators are
-- arguments: their answers, or a record of operations with the laws they document. A breakpoint without
-- a debugger is a fault, and so is a write outside of a local variable.
--
-- devctrl_fillBuffer recurses over the queries and the reader's loop on fuel: one more than the number
-- of bytes read, which is enough as each round takes at least the header's size off that number.
--
-- Not modelled: the notify and flow-delete callbacks, which do nothing; the GUIDs; priorities; what
-- the program prints; sync.h, eventQueue.h and threadpool.h, which are copies from the NetFilter SDK:
-- the calls of AutoHandle are a list.
pub mod Shared
pub mod Nt
pub mod State
pub mod Devctrl
pub mod Packets
pub mod Callouts
pub mod Lifecycle
pub mod Tools
pub mod Process
pub mod Flowctl
pub mod Setup
pub mod Alpc
pub mod EndToEnd
pub mod Tests
