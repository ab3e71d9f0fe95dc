-- ===== src/Session/Run/Ending/Negotiated.antt =====
-- source/tftpSession.cpp: whole runs of a write request with options, and with any window.
use server_fw.Prelude.{
  ℕ, suc, ◌+◌, ◌*◌, ◌%◌, ◌^◌, ◌<◌, ◌≤◌, ◌≡◌, refl, subst, Bool, ap, ◌∙◌, arith, true, false, List,
  [], ◌∷◌, ◌++◌, ◌==◌, length, none, ok, some,
}
use server_fw.Prelude.Text.{Bytes}
use server_fw.Common.{SrvReq, State}
use server_fw.Common.Strings.{int_max}
use server_fw.Common.Users.{Accounts}
use server_fw.Addr.{Addr, same_addr}
use server_fw.Options.{Options, was_set_any, timeout}
use server_fw.Settings.{Settings, get_root_dir}
use server_fw.SmBufEx.{SmBufEx}
use server_fw.DataMgr.File.{DataMgrFile}
use server_fw.DataMgr.File.Search.{Files, path_join}
use server_fw.DataMgr.File.Opening.{Closed}
use server_fw.Session.{Session, was_error, block_size, windowsize}
use server_fw.Session.Packets.Layout.{word}
use server_fw.Session.Packets.Reply.{AreInts}
use server_fw.Session.Receive.{again}
use server_fw.Session.Run.{Env, Input, Loop, start, step_in, rounds}
use server_fw.Session.Run.Steps.{
  prefixed, prefixed-ok, in_state, rounds_one, rounds_two, rounds_none, rounds-append,
}
use server_fw.Session.Run.Transfer.{blocks}
use server_fw.Session.Run.Service.{file_env}
use server_fw.Session.Run.Negotiation.{reply_packet}
use server_fw.Session.Run.Receiving.{resent, retransmit_granted, timed_out}
use server_fw.Session.Run.Receiving.Upload.{closes}
use server_fw.Session.Run.Receiving.Blocks.{last_ack_sent, completed}
use server_fw.Session.Run.Receiving.Stored.{Stored}
use server_fw.Session.Run.Receiving.Windows.{Delivered, turns, window_acks, last_now}
use server_fw.Session.Run.Receiving.Serving.{Uploaded, Stored-Uploaded}
use server_fw.Session.Run.Receiving.Negotiated.{awaiting, serve_write_options}
use server_fw.Session.Run.Ending.{run, Delivery, delivered}

-- A write request with options, with any number of blocks to a window, as `run` serves it from its start
-- to its end on a system whose sockets work and where no file has the name and one can be created.
-- The session replies with the options it took. If the client sends the blocks of a file in turn,
-- window after window, the last block closes its window, and the disk takes them, the session
-- acknowledges exactly the last block of each window, and ends with exactly the content of that file
-- in the one it created under the root directory, which is closed and given the owner and the mode of
-- the settings. The session is new, the numbers of its options are those of an `int`, its block size
-- fits the buffer, and the blocks are as many as the file has, the last of which is short.
pub run_write_options :
    (accounts : Accounts) (fs : Files) (st : Settings) (i k : Input) (ps : List (Input × Input))
    (s : Session) (file : Bytes) (a : Addr)
    → s.stat ≡ State.need_init
    → was_error s ≡ false
    → was_set_any s.opt ≡ true
    → AreInts s.opt
    → s.opt.request_type ≡ SrvReq.write
    → fs.exists (path_join (get_root_dir st) s.opt.filename) ≡ false
    → fs.create_error (path_join (get_root_dir st) s.opt.filename) ≡ none
    → length file + block_size s < 2 ^ 63
    → block_size s ≤ 65531
    → 0 < block_size s
    → same_addr a s.cl_addr ≡ true
    → Delivered a 1 ps (blocks file (block_size s) 0 (length ps))
    → length ps * block_size s ≤ length file + block_size s
    → length file < length ps * block_size s
    → length ps % windowsize s ≡ 0
    → (c : Closed) × (run accounts st (file_env fs st) (i ∷ k ∷ turns (windowsize s) 1 ps) s
        ≡ ok (reply_packet s ∷ window_acks (windowsize s) 1 (length ps), some c))
      × Delivery accounts st (path_join (get_root_dir st) s.opt.filename) file c
run_write_options accounts fs st i k ps s file a h e any ints r x c n b p client d most least
      whole =
    let (m, buf, l, served, u) =
      serve_write_options fs st i k ps s file a h e any ints r x c n b p client d most least in
    delivered accounts st (file_env fs st) (i ∷ k ∷ turns (windowsize s) 1 ps) s l
      (reply_packet s ∷ window_acks (windowsize s) 1 (length ps))
      (path_join (get_root_dir st) s.opt.filename) file served
      (Stored-Uploaded (closes (windowsize s) (length ps)) (last_now ps) (suc (length ps))
        (awaiting k s m buf) l (path_join (get_root_dir st) s.opt.filename) file
        (ap (λ (x : ℕ). x == 0) whole) u)

-- The three rounds after the timeout of a session whose last block left its window open.
left_open :
    (env : Env) (late retry ackn : Input) (clock stage : ℕ) (l0 l : Loop) (name file : Bytes)
    → Stored false clock stage l0 l name file
    → l0.session.opt.request_type ≡ SrvReq.write
    → l0.retr_count ≡ 0
    → 0 < env.retransmit_count
    → late.rx ≡ again
    → timeout l0.session.opt < int_max
    → clock + timeout l0.session.opt < late.now
    → (l' : Loop) × (rounds env (late ∷ retry ∷ ackn ∷ []) l
        ≡ ok (l', (0 ∷ 4 ∷ word (stage % 2 ^ 16)) ∷ []))
      × Uploaded l' name file
unfolding step_in
left_open env late retry ackn clock stage l0 l name file u w z c quiet t n =
    let l1 : Loop = record l { session = record l.session { stat = State.retransmit } } in
    let l2 = resent env retry l1 State.ack_tx in
    let (b, local, e) = last_ack_sent ackn l2 u.local refl u.over in
    (
      completed l2 b,
      rounds_two env late retry (ackn ∷ []) l
            (in_state env late l State.data_rx u.state
              ∙ timed_out late l u.state quiet (omega (arith, t, ap timeout u.same_opt))
                  (omega (arith, n, u.clocked refl, ap timeout u.same_opt)))
            (retransmit_granted env retry l1 refl (omega (arith, c, u.same_count, z))
              (ap (λ (o : Options). o.request_type) u.same_opt ∙ w))
          ∙ ap (prefixed []) (
              rounds_one env ackn [] l2 e
              ∙ prefixed-ok ((0 ∷ 4 ∷ word (l.session.stage % 2 ^ 16)) ∷ []) [] _
                  (rounds_none env (completed l2 b)))
          ∙ ap (λ (x : ℕ). ok (completed l2 b, (0 ∷ 4 ∷ word (x % 2 ^ 16)) ∷ [])) u.next_stage,
      record {
        mgr = u.mgr;
        kind = u.writing.kind;
        file_man = u.file_man;
        filename = u.filename;
        content = u.content;
        finished = refl;
      },
    )

Stored-open :
    (w : ℕ) (ps : List (Input × Input)) (s : Session) (m : DataMgrFile) (k : Input) (b : SmBufEx)
    (l : Loop) (name file : Bytes)
    → 0 < length ps % w
    → Stored (closes w (length ps)) (last_now ps) (suc (length ps)) (awaiting k s m b) l name file
    → Stored false (last_now ps) (suc (length ps)) (awaiting k s m b) l name file
Stored-open w ps s m k b l name file h =
    subst (λ (x : Bool). Stored x (last_now ps) (suc (length ps)) (awaiting k s m b) l name file)
      (ground arith)

-- A run whose loop goes on.
run-going :
    (accounts : Accounts) (st : Settings) (env : Env) (is : List Input) (s : Session) (l : Loop)
    (sent : List Bytes)
    → rounds env is (start s) ≡ ok (l, sent)
    → l.session.stat ≡ State.data_rx
    → run accounts st env is s ≡ ok (sent, none)
unfolding run
run-going accounts st env is s l sent e h = rw e (rw h refl)

-- A write request with options whose last block leaves its window open, as `run` serves it where sockets
-- work, no file has the name and one can be created, and the client sends the blocks of a file in
-- turn, which the disk takes. Once all blocks are stored the session goes on, and the packets sent are
-- the reply and the acknowledgement of the last block of each window that was closed, so none of the
-- last block. If the client is silent until the timeout has passed, the session then acknowledges the
-- number that follows the last block's, and finishes with exactly the content of the file, closed and
-- given owner and mode. The session is new, the numbers of its options are those of an `int`, its
-- block size fits the buffer, the blocks are as many as the file has, the last of which is short, the
-- settings grant a retransmit, and the timeout is below the largest `int`.
pub window_left_open :
    (accounts : Accounts) (fs : Files) (st : Settings) (i k : Input) (ps : List (Input × Input))
    (late retry ackn : Input) (s : Session) (file : Bytes) (a : Addr)
    → s.stat ≡ State.need_init
    → was_error s ≡ false
    → was_set_any s.opt ≡ true
    → AreInts s.opt
    → s.opt.request_type ≡ SrvReq.write
    → fs.exists (path_join (get_root_dir st) s.opt.filename) ≡ false
    → fs.create_error (path_join (get_root_dir st) s.opt.filename) ≡ none
    → length file + block_size s < 2 ^ 63
    → block_size s ≤ 65531
    → 0 < block_size s
    → same_addr a s.cl_addr ≡ true
    → Delivered a 1 ps (blocks file (block_size s) 0 (length ps))
    → length ps * block_size s ≤ length file + block_size s
    → length file < length ps * block_size s
    → 0 < length ps % windowsize s
    → 0 < st.retransmit_count
    → late.rx ≡ again
    → timeout s.opt < int_max
    → last_now ps + timeout s.opt < late.now
    → (run accounts st (file_env fs st) (i ∷ k ∷ turns (windowsize s) 1 ps) s
        ≡ ok (reply_packet s ∷ window_acks (windowsize s) 1 (length ps), none))
      × (c : Closed) × (run accounts st
            (file_env fs st)
            (i ∷ k ∷ (turns (windowsize s) 1 ps ++ late ∷ retry ∷ ackn ∷ []))
            s
          ≡ ok (
            reply_packet s
                ∷ (window_acks (windowsize s) 1 (length ps)
                    ++ (0 ∷ 4 ∷ word (suc (length ps) % 2 ^ 16)) ∷ []),
            some c,
          ))
      × Delivery accounts st (path_join (get_root_dir st) s.opt.filename) file c
window_left_open accounts fs st i k ps late retry ackn s file a h e any ints r x c n b p client d
      most least left granted quiet t late_now =
    let env = file_env fs st in
    let name = path_join (get_root_dir st) s.opt.filename in
    let acks = reply_packet s ∷ window_acks (windowsize s) 1 (length ps) in
    let (m, buf, l, served, u) =
      serve_write_options fs st i k ps s file a h e any ints r x c n b p client d most least in
    let u0 = Stored-open (windowsize s) ps s m k buf l name file left u in
    let (l', run', up) =
      left_open env late retry ackn (last_now ps) (suc (length ps)) (awaiting k s m buf) l name file
        u0 r refl granted quiet t late_now in
    let (c, ran, d) =
      delivered accounts st env (i ∷ k ∷ (turns (windowsize s) 1 ps ++ late ∷ retry ∷ ackn ∷ [])) s
        l' (acks ++ (0 ∷ 4 ∷ word (suc (length ps) % 2 ^ 16)) ∷ []) name file
        (rounds-append env (i ∷ k ∷ turns (windowsize s) 1 ps) (late ∷ retry ∷ ackn ∷ []) (start s)
            l acks served
          ∙ prefixed-ok acks ((0 ∷ 4 ∷ word (suc (length ps) % 2 ^ 16)) ∷ []) _ run')
        up in
    (
      run-going accounts st env (i ∷ k ∷ turns (windowsize s) 1 ps) s l acks served u0.state,
      c,
      ran,
      d,
    )
