-- ===== src/Devctrl/Fill.antt =====
-- wfpdriver/devctrl.c: devctrl_fillBuffer and devctrl_clean's loop over the query list.
use wfpdriver.Shared.{ℕ, ◌-◌, Option, none, some, List, [], ◌∷◌, if◌then◌else◌, ◌==◌, true, false}
use wfpdriver.Nt.{success, nf_datalink_packet, nf_flowctx_packet, nt_success}
use wfpdriver.State.{Driver}
use wfpdriver.Devctrl.Pop.{Popped, pop_data_link_data, pop_flowestablished_data}

-- The switch on pEntry->code; ASSERT is defined empty.
unfoldable pub pop_by_code : ℕ → ℕ → Driver → Popped
pop_by_code code off d =
    if code == nf_datalink_packet
    then pop_data_link_data off d
    else if code == nf_flowctx_packet
    then pop_flowestablished_data off d
    else some (success, off, d)

-- The loop; a query whose data cannot be moved goes back to the head, and ends it.
unfoldable pub fill_loop : List ℕ → ℕ → Driver → Option (ℕ × Driver)
unfolding pop_by_code
fill_loop [] off d = some (off, record d { query = [] })
fill_loop (code ∷ rest) off d = elim (pop_by_code code off (record d { query = rest })) [
  | none ↦ none
  | some (status, off', d') ↦ elim (nt_success status) [
    | true ↦ fill_loop rest off' (record d' { query_live = d'.query_live - 1 })
    | false ↦ some (off', record d' { query = code ∷ rest })
  ]
]

-- The result is the offset, and what the list and the shared buffer hold afterwards.
unfoldable pub fill_buffer : Driver → Option (ℕ × Driver)
unfolding fill_loop
fill_buffer d = fill_loop d.query 0 d
