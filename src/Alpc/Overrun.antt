-- ===== src/Alpc/Overrun.antt =====
-- The receive buffers of wfptools/HlprServerAlpc.cpp and wfpdriver/HlprDriverAlpc.c: PORT_MESSAGEs on the
-- stack, without room for what the other end sends.
use wfpdriver.Alpc.Server.{Server}
