-- ===== src/Devctrl/SharedMem.antt =====
-- wfpdriver/devctrl.c: devctrl_createSharedMemory, devctrl_freeSharedMemory and devctrl_openMem.
-- The answers of the memory manager are arguments.
use wfpdriver.Shared.{
  ℕ, ◌+◌, Bool, true, false, not, ◌&&◌, Option, none, some, Memory, ltb, ◌==◌, if◌then◌else◌,
}
use wfpdriver.Nt.{
  Status, success, unsuccessful, insufficient_resources, nt_success, sizeof_nf_buffers,
}
use wfpdriver.State.{Driver, SharedMemory, no_shared_memory, Mm}
use wfpdriver.Devctrl.Reads.{complete}

-- MmMapLockedPagesSpecifyCache: an address, NULL, or an exception that the __except block swallows.
pub data Mapping : Type 0 where
  va : ℕ → Mapping
  null raised : Mapping

-- What the memory manager answers to one creation. `pages` is MmAllocatePagesForMdl with the byte
-- count of the MDL; addresses are not 0.
pub record MmAnswers : Type 0 where
  pub pages : Option ℕ
  pub mdl : ℕ
  pub kernel : Option ℕ
  pub user : Mapping
  pub contents : Memory

-- MmFreePagesFromMdl and IoFreeMdl
unfoldable pub release_mdl : Mm → Mm
release_mdl m = record m { freed_mdls = m.freed_mdls + 1 }

unfoldable pub unmap_kernel : Mm → Mm
unmap_kernel m = record m { kernel_unmaps = m.kernel_unmaps + 1 }

unfoldable pub unmap_user : Mm → Mm
unmap_user m = record m { user_unmaps = m.user_unmaps + 1 }

abbrev pub Created : Type 0
Created = Status × SharedMemory × Mm

-- The user mapping, once the kernel mapping is there.
unfoldable pub create_user : MmAnswers → ℕ → ℕ → Mapping → Mm → Created
unfolding release_mdl unmap_kernel
create_user a count kva (va uva) m = (
  success,
  record {
    mdl = a.mdl;
    user_va = uva;
    kernel_va = kva;
    buffer_length = count;
    mapped = count;
    bytes = a.contents;
  },
  record m { user_maps = m.user_maps + 1 },
)
create_user a count kva null m =
    (insufficient_resources, no_shared_memory, release_mdl (unmap_kernel m))
create_user a count kva raised m =
    (insufficient_resources, no_shared_memory, release_mdl (unmap_kernel m))

unfoldable pub create_kernel : MmAnswers → ℕ → Option ℕ → Mm → Created
unfolding create_user
create_kernel a count none m = (insufficient_resources, no_shared_memory, release_mdl m)
create_kernel a count (some kva) m =
    create_user a count kva a.user (record m { kernel_maps = m.kernel_maps + 1 })

unfoldable pub create_pages : MmAnswers → Option ℕ → Mm → Created
unfolding create_kernel
create_pages a none m = (insufficient_resources, no_shared_memory, m)
create_pages a (some count) m = create_kernel a count a.kernel (record m { mdls = m.mdls + 1 })

unfoldable pub create_shared_memory : MmAnswers → Mm → Created
unfolding create_pages
create_shared_memory a m = create_pages a a.pages m

unfoldable pub free_shared_memory : SharedMemory → Mm → SharedMemory × Mm
unfolding release_mdl unmap_kernel unmap_user
free_shared_memory s m = if s.mdl == 0 then (s, m) else (
  no_shared_memory,
  release_mdl (
      let m' = if s.user_va == 0 then m else unmap_user m in
      if s.kernel_va == 0 then m' else unmap_kernel m'),
)

-- Both buffers, in the order of the source.
unfoldable pub free_buffers : Driver → Driver
unfolding free_shared_memory
free_buffers d =
    let r = free_shared_memory d.in_buf d.mm in
    let q = free_shared_memory d.out_buf r.1 in record d { in_buf = r.0; out_buf = q.0; mm = q.1 }

-- The buffers that are not there yet are created, the second only if the first is there.
unfoldable pub set_in : Created → Driver → Status × Driver
set_in (status, buf, m) d = (status, record d { in_buf = buf; mm = m })

unfoldable pub set_out : Created → Driver → Status × Driver
set_out (status, buf, m) d = (status, record d { out_buf = buf; mm = m })

unfoldable pub open_in : MmAnswers → Driver → Status × Driver
unfolding create_shared_memory set_in
open_in a d = if d.in_buf.mdl == 0 then set_in (create_shared_memory a d.mm) d else (success, d)

unfoldable pub open_out : MmAnswers → Driver → Status × Driver
unfolding create_shared_memory set_out
open_out a d = if d.out_buf.mdl == 0 then set_out (create_shared_memory a d.mm) d else (success, d)

unfoldable pub open_both : MmAnswers → MmAnswers → Driver → Status × Driver
unfolding open_in open_out
open_both a b d = let r = open_in a d in if nt_success r.0 then open_out b r.1 else r

-- NF_BUFFERS, as it is stored in the caller's buffer.
pub record NfBuffers : Type 0 where
  pub in_buf : ℕ
  pub in_buf_len : ℕ
  pub out_buf : ℕ
  pub out_buf_len : ℕ

abbrev pub buffers_of : Driver → NfBuffers
buffers_of d = record {
  in_buf = d.in_buf.user_va;
  in_buf_len = d.in_buf.buffer_length;
  out_buf = d.out_buf.user_va;
  out_buf_len = d.out_buf.buffer_length;
}

-- The buffer of the request: the code is METHOD_NEITHER, so it is the address that the caller gave,
-- which nothing has probed. It is NULL, or can be written, or cannot.
pub data ReplyBuffer : Type 0 where
  absent writable unwritable : ReplyBuffer

unfoldable pub is_present : ReplyBuffer → Bool
is_present absent = false
is_present writable = true
is_present unwritable = true

unfoldable pub is_writable : ReplyBuffer → Bool
is_writable absent = false
is_writable writable = true
is_writable unwritable = false

-- The status, the reply and the driver. `none` is a fault: the reply is written outside of the __try.
abbrev pub Opened : Type 0
Opened = Option (Status × Option NfBuffers × Driver)

-- After the buffers: on failure both are freed, on success their addresses are reported.
unfoldable pub finish_open : ℕ → ReplyBuffer → Status × Driver → Opened
finish_open id buffer (status, d) =
    if nt_success status
    then if is_writable buffer
      then some (success, some (buffers_of d), complete id success sizeof_nf_buffers 0 d)
      else none
    else some (unsuccessful, none, complete id unsuccessful 0 0 (free_buffers d))

unfoldable pub open_mem : ℕ → ReplyBuffer → ℕ → MmAnswers → MmAnswers → Driver → Opened
open_mem id buffer output_length a b d =
    if is_present buffer && not (ltb output_length sizeof_nf_buffers)
    then finish_open id buffer (open_both a b d)
    else some (unsuccessful, none, complete id unsuccessful 0 0 d)
