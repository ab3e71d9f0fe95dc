-- ===== src/Srv/Answers.antt =====
-- source/tftpSrv.cpp and source/tftpSession.cpp: from the packet that reaches the server to the file.
use server_fw.Prelude.{
  suc, ◌+◌, ◌*◌, ◌^◌, ◌<◌, ◌≤◌, ◌≡◌, refl, ap, arith, true, false, List, [], ◌∷◌, ◌++◌, length,
  some, none, ok,
}
use server_fw.Prelude.Text.{Bytes, text_eq_iff}
use server_fw.Common.{SrvReq, State}
use server_fw.Common.Users.{Accounts}
use server_fw.Addr.{Addr, same_addr}
use server_fw.Options.Request.{apply_options}
use server_fw.Options.Request.RoundTrip.{Sent, packet, IsSent, plain}
use server_fw.SmBuf.Words.{Fits}
use server_fw.Settings.{get_root_dir}
use server_fw.DataMgr.File.Search.{Files, path_join}
use server_fw.DataMgr.File.Opening.{find_file, Closed}
use server_fw.Session.{Session, was_error}
use server_fw.Session.Run.{Input, start, rounds}
use server_fw.Session.Run
use server_fw.Session.Run.Transfer.{Acknowledged, flat, blocks, data_packets, joined}
use server_fw.Session.Run.Service.{file_env, serve_read}
use server_fw.Session.Run.Receiving.{ack_packets}
use server_fw.Session.Run.Receiving.Windows.{Delivered}
use server_fw.Session.Run.Ending.{run, Delivery, run_write}
use server_fw.Srv.{Loop, reap, round}
use server_fw.Srv.Rounds.{requested, round-packet}

same_addr_self : (a : Addr) → same_addr a a ≡ true
unfolding same_addr
same_addr_self a = (text_eq_iff a.bytes a.bytes).1 refl

no_options : (r : Sent) → r.opts ≡ [] → apply_options (plain r) r.opts ≡ ok (plain r)
no_options r e = ap (apply_options (plain r)) e

-- A read request without options, from its packet on: in the round of the server that receives it, a
-- session joins those of the server, and that session, as `run` serves it, sends the client the
-- blocks of 512 bytes of the file found for the name, in order and in DATA packets numbered from 1,
-- and finishes; the blocks make up exactly the content of the file. The packet is whole and fits the buffer of the server, the session's socket works, the file
-- can be opened, and the client acknowledges each block, the last of which is short.
pub answer_read :
    (fs : Files) (l : Loop) (a : Addr) (r : Sent) (i k : Input) (ps : List (Input × Input))
    (file : Bytes)
    → IsSent r
    → r.kind ≡ SrvReq.read
    → r.opts ≡ []
    → 9 ≤ length (packet r)
    → length (packet r) ≤ length l.pkt_buf
    → Fits l.pkt_buf
    → find_file fs l.server.settings r.filename ≡ some file
    → fs.open_error file ≡ none
    → length (fs.content file) < 2 ^ 63
    → Acknowledged a 1 ps
    → length ps * 512 ≤ length (fs.content file) + 512
    → length (fs.content file) < length ps * 512
    → (l' : Loop) × (s : Session) × (round (some (a, packet r)) l ≡ ok l')
      × (l'.server.sessions ≡ reap (l.server.sessions ++ s ∷ []))
      × (e : Run.Loop) × (rounds (file_env fs l.server.settings) (i ∷ k ∷ flat ps) (start s)
          ≡ ok (e, data_packets 1 (blocks (fs.content file) 512 0 (length ps))))
      × (joined (blocks (fs.content file) 512 0 (length ps)) ≡ fs.content file)
      × (e.session.stat ≡ State.finish)
unfolding was_error
answer_read fs l a r i k ps file v kind plain_request long short f o n z acks most least =
    let st = l.server.settings in
    let (l', heard, joins) =
      round-packet l a r (plain r) v (no_options r plain_request) long short f in
    let (e, run, same, done) =
      serve_read fs st i k ps (requested st a (plain r)) file a refl refl refl kind o n z
        (omega arith) (omega arith) refl (same_addr_self a) acks most least in
    (l', requested st a (plain r), heard, joins, e, run, same, done)

-- A write request without options, from its packet on: in the round of the server that receives it, a
-- session joins those of the server, and that session, as `run` serves it, acknowledges the request
-- and each block, and ends with exactly the content of the client's file in the one it created under
-- the root directory, which is closed and given the owner and the mode of the settings. The packet is
-- whole and fits the buffer of the server, the session's socket works, no file has the name and one can
-- be created, and the client sends the blocks of its file of 512 bytes in turn, the last of which is
-- short, which the disk takes.
pub answer_write :
    (accounts : Accounts) (fs : Files) (l : Loop) (a : Addr) (r : Sent) (i k q : Input)
    (ps : List (Input × Input)) (file : Bytes)
    → IsSent r
    → r.kind ≡ SrvReq.write
    → r.opts ≡ []
    → 9 ≤ length (packet r)
    → length (packet r) ≤ length l.pkt_buf
    → Fits l.pkt_buf
    → fs.exists (path_join (get_root_dir l.server.settings) r.filename) ≡ false
    → fs.create_error (path_join (get_root_dir l.server.settings) r.filename) ≡ none
    → length file + 512 < 2 ^ 63
    → Delivered a 1 ps (blocks file 512 0 (length ps))
    → length ps * 512 ≤ length file + 512
    → length file < length ps * 512
    → (l' : Loop) × (s : Session) × (round (some (a, packet r)) l ≡ ok l')
      × (l'.server.sessions ≡ reap (l.server.sessions ++ s ∷ []))
      × (c : Closed) × (run accounts l.server.settings
            (file_env fs l.server.settings)
            (i ∷ k ∷ q ∷ flat ps)
            s
          ≡ ok (ack_packets 0 (suc (length ps)), some c))
      × Delivery accounts l.server.settings
          (path_join (get_root_dir l.server.settings) r.filename)
          file
          c
unfolding was_error
answer_write accounts fs l a r i k q ps file v kind plain_request long short f x c n d most least =
    let st = l.server.settings in
    let (l', heard, joins) =
      round-packet l a r (plain r) v (no_options r plain_request) long short f in
    let (closed, ran, delivery) =
      run_write accounts fs st i k q ps (requested st a (plain r)) file a refl refl refl kind x c n
        (omega arith) (omega arith) refl (same_addr_self a) d most least in
    (l', requested st a (plain r), heard, joins, closed, ran, delivery)
