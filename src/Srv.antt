-- ===== src/Srv.antt =====
-- source/tftpSrv.h and source/tftpSrv.cpp: class `Srv`, the listener and the list of its sessions.
-- A session's thread changes it between two rounds of the loop.
pub mod Rounds
pub mod Threads
pub mod Answers
use server_fw.Prelude.{
  ℕ, zero, suc, Bool, true, false, not, List, [], ◌∷◌, ◌++◌, length, take, put, replicate, leb,
  ◌==◌, if◌then◌else◌, Option, none, some, Result, ok, err, ◌>>=◌,
}
use server_fw.Prelude.Text.{Bytes}
use server_fw.Addr.{Addr}
use server_fw.Settings.{Settings}
use server_fw.Session.{Session, session, move_assign, is_finished}
use server_fw.Session.Prepare.{prepare}

-- `socket` is `none` for -1.
pub record Srv : Type 0 where
  pub settings : Settings
  pub sessions : List Session
  pub socket : Option ℕ
  pub stop : Bool

-- The constructor.
abbrev pub srv : Settings → Srv
srv st = record { settings = st; sessions = []; socket = none; stop = false }

-- The loop ends before its next round.
abbrev pub stop : Srv → Srv
stop s = record s { stop = true }

-- What `socket` and `bind` answer.
pub record Sys : Type 0 where
  pub new_socket : Option ℕ
  pub bind_ok : Bool

abbrev pub socket_close : Srv → Srv
socket_close s = record s { socket = none }

unfoldable pub socket_open : Sys → Srv → Bool × Srv
socket_open sys s = elim sys.new_socket [
  | none ↦ (false, record s { socket = none })
  | some fd ↦
      if sys.bind_ok
      then (true, record s { socket = some fd })
      else (false, socket_close (record s { socket = some fd }))
]

unfoldable pub init : Sys → Srv → Bool × Srv
unfolding socket_open
init sys s = elim s.socket [ none ↦ socket_open sys s | some _ ↦ socket_open sys (socket_close s) ]

-- The loop over the sessions, which erases the first that has finished.
abbrev pub reap : List Session → List Session
reap [] = []
reap (s ∷ ss) = let rest = reap ss in if is_finished s then ss else s ∷ rest

-- The server and the packet buffer of the loop.
pub record Loop : Type 0 where
  pub server : Srv
  pub pkt_buf : Bytes

abbrev pub fresh_buf : Bytes
fresh_buf = replicate 0xffff 0

-- The beginning of `main_loop`: the loop is not entered if the start fails. Only the number 0 counts
-- as a socket that is to be opened.
unfoldable pub enter : Sys → Srv → Option Loop
unfolding init
enter sys s =
    let go =
      λ (t : Srv). some (record { server = record t { stop = false }; pkt_buf = fresh_buf }) in
    elim s.socket [
      | none ↦ go s
      | some fd ↦ if fd == 0 then (if (init sys s).0 then go (init sys s).1 else none) else go s
    ]

-- A packet of `bsize` bytes in the buffer.
unfoldable pub accept : Srv → Addr → Bytes → ℕ → Result Srv
accept s client_addr pkt_buf bsize =
    if leb 9 bsize
    then prepare s.settings session client_addr pkt_buf bsize >>= (λ r.
      ok
        (if r.0 then record s { sessions = s.sessions ++ (move_assign session r.1).0 ∷ [] } else s))
    else ok s

abbrev pub reaped : Bytes → Srv → Loop
reaped buf s = record { server = record s { sessions = reap s.sessions }; pkt_buf = buf }

-- One round, with the packet that `recvfrom` gives, if there is one. A packet longer than the
-- buffer is cut.
unfoldable pub round : Option (Addr × Bytes) → Loop → Result Loop
unfolding accept
round none l = ok (reaped l.pkt_buf l.server)
round (some (client_addr, bytes)) l =
    let given = take (length l.pkt_buf) bytes in
    let buf = put l.pkt_buf 0 given in
    do s ← accept l.server client_addr buf (length given); ok (reaped buf s)
