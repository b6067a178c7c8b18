-- ===== src/Tests/Alpc.antt =====
-- The message port at concrete messages: wfpdriver/HlprDriverAlpc.c and wfptools/HlprServerAlpc.cpp.
use wfpdriver.Shared.{◌≡◌, true, [], ◌∷◌}
use wfpdriver.Nt.{success}
use wfpdriver.Tools.Handler.{find}
use wfpdriver.Alpc.Port.{AlpcDriver, AlpcAnswers, failed}
use wfpdriver.Alpc.Server.{Server, PortAnswers, list_thread}
use wfpdriver.Alpc.ServerLaws.{last_with, or_else, list_thread-find}

abbrev answers : AlpcAnswers
answers = record { pool = true; connect = success; handle = 5; send = success; thread = true }

abbrev started : AlpcDriver
started = record {
  port = 5;
  connect_known = true;
  send_known = true;
  live = 0;
  sent = [];
  threads = 1;
}

abbrev listening : Server
listening = record { connected = true; queue = (1 ∷ 2 ∷ []) ∷ []; flows = [] }

list_thread-find_example :
    ((list_thread listening).queue ≡ [])
    × (find 0 (list_thread listening).flows ≡ or_else (last_with 0 ((1 ∷ 2 ∷ []) ∷ [])) (find 0 []))
list_thread-find_example = list_thread-find 0 listening

abbrev port_answers : PortAnswers
port_answers = record { create = true; first = failed; heap = true; accept = true; messages = [] }
