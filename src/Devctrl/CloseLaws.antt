-- ===== src/Devctrl/CloseLaws.antt =====
-- What devctrl_close of devctrl.c leaves of the driver's state.
use wfpdriver.Shared.{ℕ, ◌+◌, ◌-◌, ◌≤◌, ◌≡◌, refl, ap, ◌∙◌, List, [], ◌∷◌, length, arith}
use wfpdriver.Nt.{success}
use wfpdriver.State.{Driver, Mm}
use wfpdriver.Packets.Datalink
use wfpdriver.Packets.Established
use wfpdriver.Packets.DatalinkLaws
use wfpdriver.Packets.EstablishedLaws
use wfpdriver.Devctrl.Push.{setmonitor}
use wfpdriver.Devctrl.Reads.{complete}
use wfpdriver.Devctrl.SharedMem.{free_buffers, free_shared_memory}
use wfpdriver.Devctrl.Dispatch.{clean_queries, clean, close_request}
use wfpdriver.Devctrl.MemoryLaws.{IsBalanced}

-- The driver without what waits, the buffers still there.
abbrev pub drained : Driver → Driver
drained d = record d {
  monitor_flag = 0;
  flows = [];
  flow_live = d.flow_live - length d.flows;
  datalink = [];
  datalink_live = d.datalink_live - length d.datalink;
  query = [];
  query_live = d.query_live - length d.query;
}

clean_queries_lem :
    (cs : List ℕ) (d : Driver)
    → clean_queries cs d ≡ record d { query = []; query_live = d.query_live - length cs }
unfolding clean_queries
clean_queries_lem [] d = ground arith
clean_queries_lem (c ∷ cs) d =
    clean_queries_lem cs (record d { query = cs; query_live = d.query_live - 1 }) ∙ ground arith

clean-free_buffers :
    (d : Driver)
    → clean d ≡ free_buffers (record d { query = []; query_live = d.query_live - length d.query })
unfolding clean
clean-free_buffers d = ap free_buffers (clean_queries_lem d.query d)

without_flows : Driver → Driver
without_flows d = record d { flows = []; flow_live = d.flow_live - length d.flows }

without_frames : Driver → Driver
without_frames d = record d { datalink = []; datalink_live = d.datalink_live - length d.datalink }

pub clean-drained :
    (d : Driver)
    → clean (Datalink.clean (Established.clean (record d { monitor_flag = 0 })))
      ≡ free_buffers (drained d)
unfolding without_flows without_frames
clean-drained d =
    ap (λ e. clean (Datalink.clean e)) (EstablishedLaws.clean_lem (record d { monitor_flag = 0 }))
    ∙ ap clean (DatalinkLaws.clean_lem (without_flows (record d { monitor_flag = 0 })))
    ∙ clean-free_buffers (without_frames (without_flows (record d { monitor_flag = 0 })))

pub clean-frames_first :
    (d : Driver)
    → clean (Established.clean (Datalink.clean (record d { monitor_flag = 0 })))
      ≡ free_buffers (drained d)
unfolding without_flows without_frames
clean-frames_first d =
    ap (λ e. clean (Established.clean e)) (DatalinkLaws.clean_lem (record d { monitor_flag = 0 }))
    ∙ ap clean (EstablishedLaws.clean_lem (without_frames (record d { monitor_flag = 0 })))
    ∙ clean-free_buffers (without_flows (without_frames (record d { monitor_flag = 0 })))

pub close_request-drained :
    (id : ℕ) (d : Driver)
    → close_request id d ≡ (success, complete id success 0 0 (free_buffers (drained d)))
unfolding close_request setmonitor
close_request-drained id d = ap (λ e. (success, complete id success 0 0 e)) (clean-drained d)

-- The memory manager has everything back.
pub record AllFreed (m : Mm) : Type 0 where
  pub mdls : m.mdls ≡ m.freed_mdls
  pub kernel_maps : m.kernel_maps ≡ m.kernel_unmaps
  pub user_maps : m.user_maps ≡ m.user_unmaps

-- No packet and no query waits any more, and exactly as many entries as waited went back to each
-- lookaside list; the buffers are gone; the pended reads are as before.
pub record IsClosed (d d' : Driver) : Type 0 where
  pub monitor : d'.monitor_flag ≡ 0
  pub query : d'.query ≡ []
  pub datalink : d'.datalink ≡ []
  pub flows : d'.flows ≡ []
  pub query_live : d'.query_live + length d.query ≡ d.query_live
  pub datalink_live : d'.datalink_live + length d.datalink ≡ d.datalink_live
  pub flow_live : d'.flow_live + length d.flows ≡ d.flow_live
  pub in_buf : d'.in_buf.mdl ≡ 0
  pub out_buf : d'.out_buf.mdl ≡ 0
  pub mm : AllFreed d'.mm
  pub pended : d'.pended ≡ d.pended

released :
    (d : Driver)
    → IsBalanced d
    → let e = free_buffers d in (e.in_buf.mdl ≡ 0) × (e.out_buf.mdl ≡ 0) × AllFreed e.mm
unfolding free_buffers free_shared_memory
released d b = ground arith

released-drained :
    (d : Driver)
    → IsBalanced d
    → let e = free_buffers (drained d) in (e.in_buf.mdl ≡ 0) × (e.out_buf.mdl ≡ 0) × AllFreed e.mm
released-drained d b = released (drained d) (record {
  in_whole = b.in_whole;
  out_whole = b.out_whole;
  mdls = b.mdls;
  kernel_maps = b.kernel_maps;
  user_maps = b.user_maps;
})

-- Every entry that waits was taken from its lookaside list; more may have been taken, and been lost.
pub record Counts (d : Driver) : Type 0 where
  pub datalink : length d.datalink ≤ d.datalink_live
  pub flows : length d.flows ≤ d.flow_live
  pub query : length d.query ≤ d.query_live

pub free_buffers-IsClosed :
    (d : Driver) → IsBalanced d → Counts d → IsClosed d (free_buffers (drained d))
unfolding free_buffers
free_buffers-IsClosed d b c =
    let r = released-drained d b in
    record {
      monitor = refl;
      query = refl;
      datalink = refl;
      flows = refl;
      query_live = omega (arith, c.query);
      datalink_live = omega (arith, c.datalink);
      flow_live = omega (arith, c.flows);
      in_buf = r.0;
      out_buf = r.1;
      mm = r.2;
      pended = refl;
    }

complete-IsClosed : (id : ℕ) (d e : Driver) → IsClosed d e → IsClosed d (complete id success 0 0 e)
unfolding complete
complete-IsClosed id d e h = record {
  monitor = h.monitor;
  query = h.query;
  datalink = h.datalink;
  flows = h.flows;
  query_live = h.query_live;
  datalink_live = h.datalink_live;
  flow_live = h.flow_live;
  in_buf = h.in_buf;
  out_buf = h.out_buf;
  mm = h.mm;
  pended = h.pended;
}

-- Closing the device stops the monitor, drops every packet and query that waits, gives back exactly
-- their entries, and releases both buffers with all their mappings; the pended reads are left as they
-- are. This is if what the memory manager gave is balanced, and no list is longer than the count of the
-- entries taken for it.
pub close_request-IsClosed :
    (id : ℕ) (d : Driver) → IsBalanced d → Counts d → IsClosed d (close_request id d).1
close_request-IsClosed id d b c =
    rw (close_request-drained id d)
      (complete-IsClosed id d (free_buffers (drained d)) (free_buffers-IsClosed d b c))
