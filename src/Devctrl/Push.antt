-- ===== src/Devctrl/Push.antt =====
-- wfpdriver/devctrl.c: devctrl_pushDataLinkCtxBuffer, devctrl_pushFlowCtxBuffer, the setters.
-- `allocated` is the answer of ExAllocateFromNPagedLookasideList.
use wfpdriver.Shared.{ℕ, ◌+◌, Bool, true, ◌∷◌, ◌==◌, if◌then◌else◌}
use wfpdriver.Nt.{Status, success, unsuccessful, nf_datalink_packet, nf_flowctx_packet}
use wfpdriver.State.{Driver}

-- KeSetEvent(&g_ioThreadEvent, ...)
unfoldable pub set_event : Driver → Driver
set_event d = record d { io_event = true }

-- InsertHeadList(&g_IoQueryHead, &pQuery->entry) of a fresh entry.
unfoldable pub insert_query : ℕ → Driver → Driver
insert_query code d = record d { query = code ∷ d.query; query_live = d.query_live + 1 }

unfoldable pub push_data_link_ctx_buffer : ℕ → Bool → Driver → Status × Driver
unfolding set_event insert_query
push_data_link_ctx_buffer code allocated d =
    if code == nf_datalink_packet
    then if allocated
      then (success, set_event (insert_query code d))
      else (unsuccessful, set_event d)
    else (success, set_event d)

unfoldable pub push_flow_ctx_buffer : ℕ → Bool → Driver → Status × Driver
unfolding set_event insert_query
push_flow_ctx_buffer code allocated d =
    if code == nf_flowctx_packet
    then if allocated
      then (success, set_event (insert_query code d))
      else (unsuccessful, set_event d)
    else (success, set_event d)

unfoldable pub setmonitor : ℕ → Driver → Status × Driver
setmonitor flag d = (success, record d { monitor_flag = flag })

unfoldable pub set_shutdown : Driver → Driver
set_shutdown d = record d { shutdown = true }
