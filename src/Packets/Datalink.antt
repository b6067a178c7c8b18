-- ===== src/Packets/Datalink.antt =====
-- wfpdriver/datalinkctx.c: the list of captured frames. A result `none` is an access violation.
use wfpdriver.Shared.{
  ℕ, ◌+◌, ◌-◌, ◌&&◌, Option, none, some, List, [], ◌∷◌, if◌then◌else◌, ℤ, pos, negsuc, below_one,
  as_ulong, region, Bool,
}
use wfpdriver.Nt.{Status, success, nf_datalink_packet}
use wfpdriver.State.{Driver, Packet}
use wfpdriver.Devctrl.Push.{push_data_link_ctx_buffer}
use wfpdriver.Packets.Alloc.{Alloc, is_null, data_block, fill_packet}

unfoldable pub allocate_block : Option (Option (List ℕ)) → Driver → Option Packet × Driver
allocate_block none d = (none, d)
allocate_block (some b) d = (
  some (record { data_buffer = b; data_length = 0 }),
  record d { datalink_live = d.datalink_live + 1 },
)

-- An entry whose data block cannot be had goes back to the list at once.
unfoldable pub packallocate : ℤ → Alloc → Driver → Option Packet × Driver
unfolding allocate_block data_block
packallocate (negsuc n) a d = (none, d)
packallocate (pos n) a d = if a.entry then allocate_block (data_block n a.buffer) d else (none, d)

-- The entry goes back to its lookaside list, with its data block.
unfoldable pub packfree : Packet → Driver → Driver
packfree p d = record d { datalink_live = d.datalink_live - 1 }

-- InsertHeadList under the lock, then the query entry. The status of the latter is not looked at.
unfoldable pub push_filled : Bool → Option Packet → Driver → Option (Status × Driver)
unfolding push_data_link_ctx_buffer
push_filled query none d = none
push_filled query (some p) d = some (
  success,
  (push_data_link_ctx_buffer nf_datalink_packet query (record d { datalink = p ∷ d.datalink })).1,
)

-- `return FALSE` is STATUS_SUCCESS.
unfoldable pub push_allocated :
    List ℕ → ℤ → Alloc → Option Packet × Driver → Option (Status × Driver)
unfolding push_filled fill_packet
push_allocated from lens a (none, d) = some (success, d)
push_allocated from lens a (some p, d) = push_filled a.query (fill_packet from (as_ulong lens) p) d

unfoldable pub pushdata : Option (List ℕ) → ℤ → Alloc → Driver → Option (Status × Driver)
unfolding push_allocated packallocate
pushdata packet lens a d =
    if is_null packet && below_one lens
    then some (success, d)
    else push_allocated (region packet) lens a (packallocate lens a d)

-- datalinkctx_clean: every entry is taken off the list and freed.
unfoldable pub clean_all : List Packet → Driver → Driver
clean_all [] d = record d { datalink = [] }
clean_all (p ∷ ps) d =
    clean_all ps (record d { datalink = ps; datalink_live = d.datalink_live - 1 })

unfoldable pub clean : Driver → Driver
unfolding clean_all
clean d = clean_all d.datalink d
