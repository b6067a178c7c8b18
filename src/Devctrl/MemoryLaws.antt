-- ===== src/Devctrl/MemoryLaws.antt =====
-- The shared memory of devctrl.c is neither leaked nor freed twice.
use wfpdriver.Shared.{
  ℕ, ◌+◌, ◌≤◌, ◌≡◌, ◌≢◌, ◌⊎◌, inl, inr, Bool, true, none, some, false, not, ◌&&◌, ltb, le→not-ltb,
  Option, ◌∙◌, ap, refl, ◌==◌, if◌then◌else◌, Bool-cases, arith,
}
use wfpdriver.Nt.{Status, success, unsuccessful, nt_success, sizeof_nf_buffers}
use wfpdriver.State.{Driver, SharedMemory, Mm}
use wfpdriver.Devctrl.Reads.{complete}
use wfpdriver.Devctrl.SharedMem.{
  MmAnswers, va, null, raised, ReplyBuffer, writable, is_present, is_writable, NfBuffers, Opened,
  create_shared_memory, free_shared_memory, free_buffers, open_in, open_out, open_both, open_mem,
  finish_open, buffers_of,
}

-- 1 for a buffer that exists, 0 for one that does not.
abbrev pub held : SharedMemory → ℕ
held s = if s.mdl == 0 then 0 else 1

-- A buffer has all of its three parts or none, and covers the length it reports.
pub record IsWhole (s : SharedMemory) : Type 0 where
  pub parts : (s.mdl ≢ 0) → (s.user_va ≢ 0) × (s.kernel_va ≢ 0)
  pub absent : s.mdl ≡ 0 → (s.user_va ≡ 0) × (s.kernel_va ≡ 0) × (s.buffer_length ≡ 0)
  pub covers : s.mapped ≡ s.buffer_length

-- What was allocated or mapped is what was freed or unmapped and the parts of the two buffers.
pub record IsBalanced (d : Driver) : Type 0 where
  pub in_whole : IsWhole d.in_buf
  pub out_whole : IsWhole d.out_buf
  pub mdls : d.mm.mdls ≡ d.mm.freed_mdls + held d.in_buf + held d.out_buf
  pub kernel_maps : d.mm.kernel_maps ≡ d.mm.kernel_unmaps + held d.in_buf + held d.out_buf
  pub user_maps : d.mm.user_maps ≡ d.mm.user_unmaps + held d.in_buf + held d.out_buf

-- The documented answers of the memory manager: an MDL and addresses are not NULL.
pub record IsSound (a : MmAnswers) : Type 0 where
  pub mdl : a.mdl ≢ 0
  pub kernel : a.kernel ≢ some 0
  pub user : a.user ≢ va 0

-- A creation that fails holds nothing and reports no buffer, one that succeeds holds one buffer, if no
-- MDL and no address that the memory manager gives is NULL.
pub create_shared_memory-held :
    (a : MmAnswers) (m : Mm)
    → IsSound a
    → let r = create_shared_memory a m in
      IsWhole r.1
      × (held r.1 ≡ (if nt_success r.0 then 1 else 0))
      × (r.2.mdls + m.freed_mdls ≡ m.mdls + r.2.freed_mdls + held r.1)
      × (r.2.kernel_maps + m.kernel_unmaps ≡ m.kernel_maps + r.2.kernel_unmaps + held r.1)
      × (r.2.user_maps + m.user_unmaps ≡ m.user_maps + r.2.user_unmaps + held r.1)
unfolding create_shared_memory
create_shared_memory-held a m v = ground arith

open_in-IsBalanced :
    (a : MmAnswers) (d : Driver) → IsSound a → IsBalanced d → IsBalanced (open_in a d).1
unfolding open_in create_shared_memory
open_in-IsBalanced a d v b = ground arith

open_out-IsBalanced :
    (a : MmAnswers) (d : Driver) → IsSound a → IsBalanced d → IsBalanced (open_out a d).1
unfolding open_out create_shared_memory
open_out-IsBalanced a d v b = ground arith

free_buffers-IsBalanced : (d : Driver) → IsBalanced d → IsBalanced (free_buffers d)
unfolding free_buffers free_shared_memory
free_buffers-IsBalanced d b = ground arith

complete-IsBalanced :
    (id : ℕ) (status : Status) (information : ℕ) (d : Driver)
    → IsBalanced d
    → IsBalanced (complete id status information 0 d)
unfolding complete
complete-IsBalanced id status information d b = record {
  in_whole = b.in_whole;
  out_whole = b.out_whole;
  mdls = b.mdls;
  kernel_maps = b.kernel_maps;
  user_maps = b.user_maps;
}

-- A fault needs an address that cannot be written.
abbrev pub Balances : ReplyBuffer → Opened → Type 0
Balances buffer none = is_writable buffer ≡ false
Balances buffer (some (status, reply, d)) = IsBalanced d

finish_open-Balances :
    (id : ℕ) (buffer : ReplyBuffer) (r : Status × Driver)
    → IsBalanced r.1
    → Balances buffer (finish_open id buffer r)
unfolding finish_open
finish_open-Balances id buffer (status, d) b = elim (Bool-cases (nt_success status)) [
  | inl good ↦ elim (Bool-cases (is_writable buffer)) [
    | inl w ↦ rw (good, w) (complete-IsBalanced id success 32 d b)
    | inr w ↦ rw (good, w) w
  ]
  | inr bad ↦
      rw bad (complete-IsBalanced id unsuccessful 0 (free_buffers d) (free_buffers-IsBalanced d b))
]

open_both-IsBalanced :
    (a c : MmAnswers) (d : Driver)
    → IsSound a
    → IsSound c
    → IsBalanced d
    → IsBalanced (open_both a c d).1
unfolding open_both
open_both-IsBalanced a c d v w b = ground (
  arith,
  open_in-IsBalanced a d v b,
  open_out-IsBalanced c (open_in a d).1 w (open_in-IsBalanced a d v b),
)

-- Opening the shared memory keeps this balance: the MDLs allocated are those freed and those of the two
-- buffers, and so are the mappings of both kinds; whatever the memory manager answers, but that no MDL
-- and no address it gives is NULL. It faults only if the caller's buffer cannot be written.
pub open_mem-Balances :
    (id : ℕ) (buffer : ReplyBuffer) (len : ℕ) (a c : MmAnswers) (d : Driver)
    → IsSound a
    → IsSound c
    → IsBalanced d
    → Balances buffer (open_mem id buffer len a c d)
unfolding open_mem
open_mem-Balances id buffer len a c d v w b =
    elim (Bool-cases (is_present buffer && not (ltb len sizeof_nf_buffers))) [
      | inl good ↦
          rw good
            (finish_open-Balances id buffer (open_both a c d) (open_both-IsBalanced a c d v w b))
      | inr bad ↦ rw bad (complete-IsBalanced id unsuccessful 0 d b)
    ]

open_in-held :
    (a : MmAnswers) (d : Driver)
    → IsSound a
    → IsBalanced d
    → nt_success (open_in a d).0 ≡ true
    → (held (open_in a d).1.in_buf ≡ 1) × ((open_in a d).1.out_buf ≡ d.out_buf)
unfolding open_in create_shared_memory
open_in-held a d v b = ground arith

open_both-held :
    (a c : MmAnswers) (d : Driver)
    → IsSound a
    → IsSound c
    → IsBalanced d
    → nt_success (open_both a c d).0 ≡ true
    → (held (open_both a c d).1.in_buf ≡ 1) × (held (open_both a c d).1.out_buf ≡ 1)
unfolding open_both open_out create_shared_memory
open_both-held a c d v w b = ground (arith, open_in-held a d v b, open_in-IsBalanced a d v b)

-- The user address of a buffer after it was asked for: the one it had, or the one that the memory
-- manager gave.
abbrev pub user_address : MmAnswers → SharedMemory → ℕ
user_address a s =
    if s.mdl == 0 then elim (a.user) [ va u ↦ u | null ↦ 0 | raised ↦ 0 ] else s.user_va

open_in-address :
    (a : MmAnswers) (d : Driver)
    → nt_success (open_in a d).0 ≡ true
    → (open_in a d).1.in_buf.user_va ≡ user_address a d.in_buf
unfolding open_in create_shared_memory
open_in-address a d h = ground arith

open_in-out : (a : MmAnswers) (d : Driver) → (open_in a d).1.out_buf ≡ d.out_buf
unfolding open_in create_shared_memory
open_in-out a d = ground arith

open_out-address :
    (a : MmAnswers) (d : Driver)
    → nt_success (open_out a d).0 ≡ true
    → ((open_out a d).1.out_buf.user_va ≡ user_address a d.out_buf)
      × ((open_out a d).1.in_buf ≡ d.in_buf)
unfolding open_out create_shared_memory
open_out-address a d h = ground arith

open_both-address :
    (a c : MmAnswers) (d : Driver)
    → nt_success (open_both a c d).0 ≡ true
    → ((open_both a c d).1.in_buf.user_va ≡ user_address a d.in_buf)
      × ((open_both a c d).1.out_buf.user_va ≡ user_address c d.out_buf)
unfolding open_both
open_both-address a c d h = elim (Bool-cases (nt_success (open_in a d).0)) [
  | inl good ↦
      let i = open_in a d in
      let g : nt_success (open_out c i.1).0 ≡ true = rw good at h in
      let o = open_out-address c i.1 g in
      rw good (
        ap (λ b. b.user_va) o.1 ∙ open_in-address a d good,
        o.0 ∙ ap (user_address c) (open_in-out a d),
      )
  | inr bad ↦ absurd (ground (arith, h, bad))
]

-- The answer to a request whose reply can be written.
abbrev pub Replies : ℕ → ℕ → Opened → Type 0
Replies u v r =
    (status : Status) × (reply : Option NfBuffers) × (d' : Driver) × (r ≡ some (status, reply, d'))
    × (((status ≡ success)
          × (reply
              ≡ some (record {
                in_buf = u;
                in_buf_len = d'.in_buf.buffer_length;
                out_buf = v;
                out_buf_len = d'.out_buf.buffer_length;
              }))
          × (held d'.in_buf ≡ 1)
          × (held d'.out_buf ≡ 1))
        ⊎ ((status ≡ unsuccessful) × (reply ≡ none) × (held d'.in_buf ≡ 0) × (held d'.out_buf ≡ 0)))

freed-held : (d : Driver) → (held (free_buffers d).in_buf ≡ 0) × (held (free_buffers d).out_buf ≡ 0)
unfolding free_buffers free_shared_memory
freed-held d = ground arith

finish_open-good :
    (id u v : ℕ) (d : Driver)
    → (d.in_buf.user_va ≡ u) × (d.out_buf.user_va ≡ v)
    → (held d.in_buf ≡ 1) × (held d.out_buf ≡ 1)
    → Replies u v (some (success, some (buffers_of d), complete id success 32 0 d))
unfolding complete
finish_open-good id u v d e h = (success, _, _, refl, inl (refl, rw (e.0, e.1) refl, h.0, h.1))

finish_open-bad :
    (id u v : ℕ) (d : Driver)
    → Replies u v (some (unsuccessful, none, complete id unsuccessful 0 0 (free_buffers d)))
unfolding complete
finish_open-bad id u v d =
    let f = freed-held d in (unsuccessful, _, _, refl, inr (refl, refl, f.0, f.1))

finish_open_lem :
    (id : ℕ) (r : Status × Driver) (b : Bool)
    → nt_success r.0 ≡ b
    → finish_open id writable r ≡ (
        if b
        then some (success, some (buffers_of r.1), complete id success 32 0 r.1)
        else some (unsuccessful, none, complete id unsuccessful 0 0 (free_buffers r.1)))
unfolding finish_open is_writable
finish_open_lem id (status, d) b h = rw h refl

-- A request to open the shared memory with room for the reply in a buffer that can be written returns.
-- Either it succeeds, and then both buffers exist, and the reply holds the user address of each, which
-- is the one that the buffer had or else the one that the memory manager has just given, and the length
-- of each; or it is refused without a reply, and then neither exists. This is if the balance held
-- before, and no MDL and no address that the memory manager gives is NULL.
pub open_mem-held :
    (id : ℕ) (len : ℕ) (a c : MmAnswers) (d : Driver)
    → IsSound a
    → IsSound c
    → IsBalanced d
    → 32 ≤ len
    → Replies (user_address a d.in_buf) (user_address c d.out_buf) (open_mem id writable len a c d)
unfolding open_mem is_present
open_mem-held id len a c d v w b h =
    let r = open_both a c d in
    let room : ltb len sizeof_nf_buffers ≡ false = le→not-ltb len 32 h in
    rw room (elim (Bool-cases (nt_success r.0)) [
      | inl good ↦ rw (finish_open_lem id r true good) (
          finish_open-good id (user_address a d.in_buf) (user_address c d.out_buf) r.1
            (open_both-address a c d good) (open_both-held a c d v w b good))
      | inr bad ↦
          rw (finish_open_lem id r false bad)
            (finish_open-bad id (user_address a d.in_buf) (user_address c d.out_buf) r.1)
    ])
