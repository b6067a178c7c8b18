-- ===== src/Setup/Device.antt =====
-- The class DevctrlIoct of wfptools/devctrl.cpp, but for its worker thread's loop, and nf_monitor of
-- wfptools/main.cpp. What Windows answers is an argument; the calls of AutoHandle are a list.
use wfpdriver.Shared.{
  ℕ, Bool, true, false, ◌&&◌, ◌||◌, Option, none, some, List, [], ◌∷◌, ◌++◌, ◌==◌, ℤ, pos, negsuc,
  if◌then◌else◌,
}
use wfpdriver.Setup.Scm.{Text}
use wfpdriver.Setup.Service.{failure}

-- NULL, INVALID_HANDLE_VALUE, or a handle.
pub data Handle : Type 0 where
  null invalid : Handle
  handle : ℕ → Handle

pub data Ioctl : Type 0 where
  open_sharemem enable_monitor disentable_monitor : Ioctl
  other_code : ℕ → Ioctl

-- The calls of g_hDevice.
pub data AutoCall : Type 0 where
  attach : Handle → AutoCall
  close : AutoCall

-- What Windows answers: CreateFile, DeviceIoControl for the shared memory, whether GetLastError is
-- ERROR_IO_PENDING after it, GetOverlappedResult and its byte count, CreateThread, and DeviceIoControl
-- for any other code.
pub record DeviceAnswers : Type 0 where
  pub create_file : Option ℕ
  pub share : Bool
  pub io_pending : Bool
  pub overlapped : Bool
  pub bytes_returned : ℕ
  pub create_thread : Option ℕ
  pub control : Bool

-- DevctrlIoct and the globals g_deviceHandle, g_hDevice, g_pEventHandler; `sent` are the requests that
-- DeviceIoControl was called with, and their handles.
pub record Device : Type 0 where
  pub m_devhandler : Handle
  pub m_threadobjhandler : Handle
  pub g_device_handle : Handle
  pub g_h_device : List AutoCall
  pub g_event_handler : Bool
  pub sent : List (Handle × Ioctl)

-- A result of the code and the state after it. `none` is a fault.
abbrev pub DeviceResult : Type 0
DeviceResult = Option (ℤ × Device)

unfoldable pub device_init : Device → Device
device_init d = record d { m_devhandler = null; m_threadobjhandler = null; g_device_handle = null }

-- The handle that a call stores, NULL if it failed.
unfoldable pub handle_or_null : Option ℕ → Handle
handle_or_null none = null
handle_or_null (some h) = handle h

-- devctrl_workthread
unfoldable pub device_workthread : DeviceAnswers → Device → ℤ × Device
device_workthread a d =
    let d1 = record d { m_threadobjhandler = handle_or_null a.create_thread } in
    elim a.create_thread [ none ↦ (pos 0, d1) | some h ↦ (pos 1, d1) ]

-- CreateFileA in devctrl_opendeviceSylink
unfoldable pub opened_device : Option ℕ → Device → ℤ × Device
opened_device none d = (failure, d)
opened_device (some h) d = (pos 1, record d { m_devhandler = handle h; g_device_handle = handle h })

-- devctrl_opendeviceSylink: the test of a NULL name takes its length.
unfoldable pub device_open : DeviceAnswers → Option Text → Device → DeviceResult
device_open a none d = none
device_open a (some name) d = some (opened_device a.create_file d)

-- sizeof(NF_BUFFERS)
abbrev pub sizeof_packed_nf_buffers : ℕ
sizeof_packed_nf_buffers = 32

-- Whether the driver gave its buffers: the three conditions after the request.
unfoldable pub shared_answered : DeviceAnswers → Bool
shared_answered a =
    (a.share || a.io_pending) && (a.overlapped && (a.bytes_returned == sizeof_packed_nf_buffers))

-- devctrl_InitshareMem with a handle to attach.
unfoldable pub share_attached : DeviceAnswers → Device → ℤ × Device
share_attached a d =
    let d1 = record d {
      g_h_device = attach d.m_devhandler ∷ d.g_h_device;
      sent = (d.m_devhandler, open_sharemem) ∷ d.sent;
    } in
    if shared_answered a
    then (pos 1, d1)
    else (failure, record d1 { g_h_device = close ∷ d1.g_h_device })

-- devctrl_InitshareMem
unfoldable pub device_initshare_mem : DeviceAnswers → Device → ℤ × Device
device_initshare_mem a d = elim (d.m_devhandler) [ invalid ↦ (failure, d) | _ ↦ share_attached a d ]

unfoldable pub is_null_handle : Handle → Bool
is_null_handle null = true
is_null_handle invalid = false
is_null_handle (handle h) = false

-- devctrl_sendioct
unfoldable pub device_sendioct : DeviceAnswers → Ioctl → Device → ℤ × Device
device_sendioct a code d = if is_null_handle d.m_devhandler then (failure, d) else (
  (if a.control then pos 1 else negsuc 1),
  record d { sent = (d.m_devhandler, code) ∷ d.sent },
)

-- devctrl_OnMonitor
unfoldable pub device_on_monitor : DeviceAnswers → Device → ℤ × Device
device_on_monitor a d = device_sendioct a enable_monitor d

-- nf_setWfpCheckEventHandler with the address of packtebuff.
unfoldable pub set_event_handler : Device → Device
set_event_handler d = record d { g_event_handler = true }

-- The calls of devctrl_clean.
pub data CleanCall : Type 0 where
  close_handle terminate_thread : Handle → CleanCall

unfoldable pub clean_handle : Handle → List CleanCall → List CleanCall
clean_handle h calls = if is_null_handle h then [] else calls

-- devctrl_clean: a handle that is not NULL is closed, also INVALID_HANDLE_VALUE and one that g_hDevice
-- has closed; g_deviceHandle keeps its value.
unfoldable pub device_clean : Device → List CleanCall × Device
device_clean d =
    let t = d.m_threadobjhandler in
    (
      clean_handle d.m_devhandler (close_handle d.m_devhandler ∷ [])
          ++ clean_handle t (terminate_thread t ∷ close_handle t ∷ []),
      record d { m_devhandler = null; m_threadobjhandler = null },
    )

-- The request that nf_monitor makes of its code: 0 where the switch has no case.
unfoldable pub monitor_code : ℤ → Ioctl
monitor_code (negsuc n) = other_code 0
monitor_code (pos n) =
    if n == 0 then disentable_monitor else if n == 1 then enable_monitor else other_code 0

-- nf_monitor; the BOOL that DeviceIoControl returns is taken for TRUE.
unfoldable pub nf_monitor : DeviceAnswers → ℤ → Device → ℤ × Device
nf_monitor a n d = if is_null_handle d.g_device_handle then (failure, d) else (
  (if a.control then pos 1 else negsuc 1),
  record d { sent = (d.g_device_handle, monitor_code n) ∷ d.sent },
)
