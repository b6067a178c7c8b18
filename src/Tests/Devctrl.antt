-- ===== src/Tests/Devctrl.antt =====
-- The theorems on wfpdriver/devctrl.c at concrete states.
use wfpdriver.Devctrl.Moved.{sizes}
use wfpdriver.Shared.{
  ◌++◌, ◌>>=◌, ltb, length, ◌≤◌, ℕ, ◌+◌, ◌≡◌, ◌<◌, ◌⊎◌, refl, true, false, Option, none, some, List,
  [], ◌∷◌, pos, arith, rtl_copy, read_bytes, sub64, le32, add64,
}
use wfpdriver.Nt.{Status, success, no_memory}
use wfpdriver.State.{Driver}
use wfpdriver.Packets.Datalink
use wfpdriver.Devctrl.Overlap.{take_data_link, return_data_link, pop_around, pop_around-overtakes}
use wfpdriver.Devctrl.Pop.{data_size, pop_data_link_data, pop_flowestablished_data}
use wfpdriver.Devctrl.Fill.{fill_buffer}
use wfpdriver.Devctrl.Overrun.{pop_flowestablished_data_full}
use wfpdriver.Devctrl.FillMoves.{Delivers, fill_buffer-Moves}
use wfpdriver.Devctrl.Serves.{count}
use wfpdriver.Devctrl.Drains.{fill_buffer-drains}
use wfpdriver.Devctrl.Covers.{run-Covers}
use wfpdriver.Devctrl.SharedMem.{open_mem, writable}
use wfpdriver.Devctrl.MemoryLaws.{Balances, Replies, user_address, open_mem-Balances, open_mem-held}
use wfpdriver.Devctrl.Dispatch.{Request, control, open_sharemem, dispatch, close_request}
use wfpdriver.Devctrl.DispatchLaws.{OnceIf, dispatch-OnceIf}
use wfpdriver.Devctrl.Leak.{pop_flowestablished_data_leaks}
use wfpdriver.Devctrl.CloseLaws.{IsClosed, close_request-IsClosed}
use wfpdriver.Devctrl.Events.{Event, read, frame, io_round, run, step}
use wfpdriver.Devctrl.Reads.{service_reads, io_thread_round}
use wfpdriver.Devctrl.Accounts.{Accounts, run-Accounts}
use wfpdriver.Devctrl.Rounds.{Answers, io_thread_round-Answers}
use wfpdriver.Devctrl.ReadLaws.{waiting, answered, tally}
use wfpdriver.Devctrl.RunLaws.{submitted, tally-run}
use wfpdriver.Tests.Data.{
  frame_packet, flow_packet, busy, busy-IsReady, busy-IsBalanced, answers, answers-IsSound, plenty,
  request,
}
use wfpdriver.Devctrl.Channel.{accepted, ChannelSteps, view}
use wfpdriver.Devctrl.Refines.{run-Refines}

fill_buffer-Moves_example : Delivers busy
fill_buffer-Moves_example = fill_buffer-Moves busy busy-IsReady

pop_flowestablished_data_full_example : pop_flowestablished_data 64 busy ≡ none
pop_flowestablished_data_full_example =
    pop_flowestablished_data_full busy flow_packet [] refl refl (omega arith)

-- Two flows wait.
abbrev two_flows : Driver
two_flows = record busy { flows = flow_packet ∷ flow_packet ∷ []; flow_live = 2 }

pop_flowestablished_data_leaks_example :
    (status : Status) × (off' : ℕ) × (d' : Driver) × (pop_flowestablished_data 4 two_flows
      ≡ some (status, off', d'))
    × (length d'.flows < d'.flow_live)
pop_flowestablished_data_leaks_example =
    pop_flowestablished_data_leaks two_flows 4 flow_packet flow_packet [] refl
      ((refl, omega arith), ((refl, omega arith), tt)) busy-IsReady.mapped (omega arith) refl

open_mem-Balances_example : Balances writable (open_mem 9 writable 32 answers answers busy)
open_mem-Balances_example =
    open_mem-Balances 9 writable 32 answers answers busy answers-IsSound answers-IsSound
      busy-IsBalanced

open_mem-held_example :
    Replies
      (user_address answers busy.in_buf)
      (user_address answers busy.out_buf)
      (open_mem 9 writable 32 answers answers busy)
open_mem-held_example =
    open_mem-held 9 32 answers answers busy answers-IsSound answers-IsSound busy-IsBalanced
      (omega arith)

-- The shared memory is asked for.
abbrev open_request : Request
open_request = control writable 32 answers answers open_sharemem

dispatch-OnceIf_example : OnceIf 7 request open_request busy (dispatch request open_request busy)
dispatch-OnceIf_example = dispatch-OnceIf 7 request open_request busy

close_request-IsClosed_example : IsClosed busy (close_request 9 busy).1
close_request-IsClosed_example =
    close_request-IsClosed 9 busy busy-IsBalanced
      (record { datalink = omega arith; flows = omega arith; query = omega arith })

-- A read comes in, a frame is captured, and the thread runs.
abbrev events : List Event
events = read false request ∷ frame (some (8 ∷ [])) (pos 1) plenty ∷ io_round ∷ []

abbrev result_of : Option Driver → Driver
result_of none = busy
result_of (some d) = d

abbrev finished : Driver
finished = result_of (run events busy)

finished_lem : run events busy ≡ some finished
unfolding run step rtl_copy read_bytes fill_buffer pop_data_link_data sub64 le32
    pop_flowestablished_data add64 service_reads
finished_lem = refl

tally-run_example :
    waiting 7 finished.pended + answered 7 finished.completed ≡ tally 7 busy + submitted 7 events
tally-run_example = tally-run 7 events busy finished finished_lem

fill_buffer-drains_example :
    (off : ℕ) × (d' : Driver) × (fill_buffer busy ≡ some (off, d'))
    × (d'.query ≡ [])
    × (1 ≡ length d'.datalink + 1)
    × ((count 2 busy.query ≡ 0) ⊎ (d'.flows ≡ []))
    × (off + sizes d'.datalink + sizes d'.flows ≡ sizes busy.datalink + sizes busy.flows)
fill_buffer-drains_example = fill_buffer-drains busy busy-IsReady (omega arith) (omega arith)

run-Refines_example : ChannelSteps events (view busy) (view finished)
run-Refines_example =
    run-Refines events busy finished (tt, (omega arith, (tt, tt))) busy-IsReady finished_lem

run-Covers_example : count 1 finished.query ≤ length finished.datalink
run-Covers_example = run-Covers events busy finished finished_lem (omega arith)

-- Two reads wait, the first of which is being cancelled.
abbrev reading : Driver
reading = record busy {
  pended =
      record request { id = 6; cancel = true; cancel_routine = false }
      ∷ record request { cancel_routine = true }
      ∷ [];
}

io_thread_round-Answers_example :
    (off : ℕ) × (d' : Driver) × (io_thread_round reading ≡ some (true, d'))
    × Answers 7
        (record request { id = 6; cancel = true; cancel_routine = false } ∷ [])
        reading
        off
        d'
io_thread_round-Answers_example =
    io_thread_round-Answers reading
      (record request { id = 6; cancel = true; cancel_routine = false } ∷ [])
      (record request { cancel_routine = true }) [] 2 (1 ∷ []) refl refl (refl, tt) refl refl refl
      (record {
        mapped = busy-IsReady.mapped;
        frames = busy-IsReady.frames;
        flows = busy-IsReady.flows;
      })
      (omega arith) (omega arith)

run-Accounts_example : Accounts finished
run-Accounts_example = run-Accounts events busy finished finished_lem (refl, refl)

-- A frame is on top and the offset is at the end of the buffer.
abbrev captured : Option (Status × Driver)
captured = Datalink.pushdata (some (8 ∷ [])) (pos 1) plenty (record busy { datalink = [] })

abbrev captured_driver : Driver
captured_driver = elim captured [ none ↦ busy | some (status, d) ↦ d ]

captured-some : captured ≡ some (success, captured_driver)
unfolding Datalink.pushdata rtl_copy read_bytes
captured-some = refl

busy-full :
    ltb (sub64 busy.in_buf.buffer_length busy.in_buf.buffer_length) (data_size frame_packet) ≡ true
unfolding sub64
busy-full = refl

pop_around-overtakes_example :
    ((take_data_link busy.in_buf.buffer_length busy >>= λ t. some (return_data_link t))
      ≡ pop_data_link_data busy.in_buf.buffer_length busy)
    × (pop_around (some (8 ∷ [])) (pos 1) plenty busy.in_buf.buffer_length busy
        ≡ some (
          no_memory,
          busy.in_buf.buffer_length,
          record captured_driver {
            datalink = frame_packet ∷ accepted (some (8 ∷ [])) (pos 1) plenty ++ [];
          },
        ))
pop_around-overtakes_example =
    pop_around-overtakes (some (8 ∷ [])) (pos 1) plenty busy.in_buf.buffer_length busy frame_packet
      [] success captured_driver (omega arith) refl busy-full captured-some
