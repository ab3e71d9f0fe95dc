-- ===== src/Session/Prepare.antt =====
-- source/tftpSession.cpp: `prepare`, which makes a session of the first packet of a client.
use server_fw.Prelude.{ℕ, Bool, Result, ok, ◌>>=◌}
use server_fw.Prelude.Text.{Bytes}
use server_fw.Addr.{Addr, set_port}
use server_fw.Options.{buffer_parse}
use server_fw.Settings.{Settings}
use server_fw.Session.{Session}

-- The result of the parse, and the session.
unfoldable pub prepare : Settings → Session → Addr → Bytes → ℕ → Result (Bool × Session)
prepare st s remote_addr pkt_data pkt_data_size = do
  (ret, opt) ← buffer_parse pkt_data pkt_data_size
  ok (ret, record s { my_addr = set_port st.local_base 0; cl_addr = remote_addr; opt = opt })
