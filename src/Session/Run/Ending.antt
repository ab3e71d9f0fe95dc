-- ===== src/Session/Run/Ending.antt =====
-- source/tftpSession.cpp: the end of `run`, behind its loop, and whole runs with it.
pub mod Negotiated
pub mod Refused
use server_fw.Prelude.{
  ℕ, suc, ◌+◌, ◌*◌, ◌^◌, ◌<◌, ◌≤◌, ◌≡◌, refl, ap, ◌∙◌, arith, true, false, ◌&&◌, ◌||◌, List, [],
  ◌∷◌, length, ltb, if◌then◌else◌, Option, some, none, Result, ok, err, ◌>>=◌, undefined,
}
use server_fw.Prelude.Text.{Bytes}
use server_fw.Common.{SrvReq, State}
use server_fw.Common.Users.{Accounts, get_uid_by_name, get_gid_by_name}
use server_fw.Addr.{Addr, same_addr}
use server_fw.Options.{was_set_any}
use server_fw.Settings.{Settings, get_root_dir}
use server_fw.DataMgr.File.{DataMgrFile}
use server_fw.DataMgr.File.Search.{Files, path_join}
use server_fw.DataMgr.File.Opening.{Closed, close, curr_perm}
use server_fw.Session.{Session, switch_to, was_error, is_finished, block_size, windowsize}
use server_fw.Session.Run.{Env, Input, Loop, start, init, step_in, on_need_init, rounds}
use server_fw.Session.Run.Steps.{prefixed-ok, in_state, rounds_one, finish_stays}
use server_fw.Session.Run.Transfer.{flat, blocks}
use server_fw.Session.Run.Service.{file_env}
use server_fw.Session.Run.Receiving.{ack_packets}
use server_fw.Session.Run.Receiving.Windows.{Delivered}
use server_fw.Session.Run.Receiving.Serving.{Uploaded, serve_write}

-- A session without a data manager calls `close` on a null pointer.
abbrev ended : Accounts → Settings → Loop → Result Closed
ended accounts st l = elim l.session.file_man [
  | none ↦ err undefined
  | some m ↦ ok (close accounts st m)
]

-- The packets of the rounds and, if the loop has been left, what was closed.
unfoldable pub run :
    Accounts → Settings → Env → List Input → Session → Result (List Bytes × Option Closed)
run accounts st env is s = do
  (l, sent) ← rounds env is (start s)
  if is_finished l.session
      then ended accounts st l >>= (λ c. ok (sent, some c))
      else ok (sent, none)

pub run-finished :
    (accounts : Accounts) (st : Settings) (env : Env) (is : List Input) (s : Session) (l : Loop)
    (sent : List Bytes)
    → rounds env is (start s) ≡ ok (l, sent)
    → l.session.stat ≡ State.finish
    → run accounts st env is s ≡ (ended accounts st l >>= (λ c. ok (sent, some c)))
unfolding run
run-finished accounts st env is s l sent e h = rw e (rw h refl)

no_socket :
    (env : Env) (s : Session)
    → (env.socket_ok && env.bind_ok) ≡ false
    → s.stat ≡ State.need_init
    → on_need_init env (start s)
      ≡ ok (record (start s) { session = record s { stat = State.finish; stage = 0 } }, [])
unfolding on_need_init init switch_to
no_socket env s n h = ground arith

-- A new session that gets no socket, or cannot bind it, ends in no defined way: it finishes in the
-- first round, before it has a data manager, and closes that all the same.
pub run_without_socket :
    (accounts : Accounts) (st : Settings) (env : Env) (i : Input) (is : List Input) (s : Session)
    → (env.socket_ok && env.bind_ok) ≡ false
    → s.stat ≡ State.need_init
    → s.file_man ≡ none
    → run accounts st env (i ∷ is) s ≡ err undefined
unfolding step_in
run_without_socket accounts st env i is s n h m =
    let l : Loop = record (start s) { session = record s { stat = State.finish; stage = 0 } } in
    run-finished accounts st env (i ∷ is) s l []
      (rounds_one env i is (start s)
          (in_state env i (start s) State.need_init h ∙ no_socket env s n h)
        ∙ prefixed-ok [] [] _ (finish_stays env is l refl))
      refl
    ∙ ap
        (λ (m : Option DataMgrFile).
          (elim m [ none ↦ err undefined | some m ↦ ok (close accounts st m) ])
          >>= (λ c. ok ([], some c)))
        m

-- The owner for the file: both numbers, if a name of either is set.
abbrev pub owner : Accounts → Settings → Option (ℕ × ℕ)
owner accounts st =
    if ltb 0 (length st.file_chown_user) || ltb 0 (length st.file_chown_grp)
    then some
        (get_uid_by_name accounts st.file_chown_user, get_gid_by_name accounts st.file_chown_grp)
    else none

-- A file that was written and closed.
pub record Delivery (accounts : Accounts) (st : Settings) (name file : Bytes) (c : Closed)
    : Type 0 where
  pub content : c.mgr.file_out.content ≡ file
  pub filename : c.mgr.filename ≡ name
  pub shut : c.mgr.file_out.is_open ≡ false
  pub owned : c.chown ≡ owner accounts st
  pub mode : c.chmod ≡ some (curr_perm st.file_chmod)

close-Delivery :
    (accounts : Accounts) (st : Settings) (l : Loop) (name file : Bytes) (u : Uploaded l name file)
    → Delivery accounts st name file (close accounts st u.mgr)
unfolding close
close-Delivery accounts st l name file u = record {
  content = ground (arith, u.kind, u.content);
  filename = ground (arith, u.kind, u.filename);
  shut = ground (arith, u.kind);
  owned = ground (arith, u.kind);
  mode = ground (arith, u.kind);
}

-- A run that uploaded a file closes it.
delivered :
    (accounts : Accounts) (st : Settings) (env : Env) (is : List Input) (s : Session) (l : Loop)
    (sent : List Bytes) (name file : Bytes)
    → rounds env is (start s) ≡ ok (l, sent)
    → Uploaded l name file
    → (c : Closed) × (run accounts st env is s ≡ ok (sent, some c))
      × Delivery accounts st name file c
delivered accounts st env is s l sent name file e u = (
  close accounts st u.mgr,
  run-finished accounts st env is s l sent e u.finished
      ∙ ap
          (λ (m : Option DataMgrFile).
            (elim m [ none ↦ err undefined | some m ↦ ok (close accounts st m) ])
            >>= (λ c. ok (sent, some c)))
          u.file_man,
  close-Delivery accounts st l name file u,
)

-- A write request without options and with one block to a window, as `run` serves it from its start to
-- its end on a system whose sockets work and where no file has the name and one can be created. If
-- the client sends the blocks of a file in turn, each once the one before is acknowledged, and the
-- disk takes them, the session acknowledges the request and every block, and ends with exactly the
-- content of that file in the one it created under the root directory, which is closed and given the
-- owner and the mode of the settings. The session is new, its block size fits the buffer, and the
-- blocks are as many as the file has, the last of which is short.
pub run_write :
    (accounts : Accounts) (fs : Files) (st : Settings) (i k q : Input) (ps : List (Input × Input))
    (s : Session) (file : Bytes) (a : Addr)
    → s.stat ≡ State.need_init
    → was_error s ≡ false
    → was_set_any s.opt ≡ false
    → s.opt.request_type ≡ SrvReq.write
    → fs.exists (path_join (get_root_dir st) s.opt.filename) ≡ false
    → fs.create_error (path_join (get_root_dir st) s.opt.filename) ≡ none
    → length file + block_size s < 2 ^ 63
    → block_size s ≤ 65531
    → 0 < block_size s
    → windowsize s ≡ 1
    → same_addr a s.cl_addr ≡ true
    → Delivered a 1 ps (blocks file (block_size s) 0 (length ps))
    → length ps * block_size s ≤ length file + block_size s
    → length file < length ps * block_size s
    → (c : Closed) × (run accounts st (file_env fs st) (i ∷ k ∷ q ∷ flat ps) s
        ≡ ok (ack_packets 0 (suc (length ps)), some c))
      × Delivery accounts st (path_join (get_root_dir st) s.opt.filename) file c
run_write accounts fs st i k q ps s file a h e w r x c n b p v client d most least =
    let (l, served, u) =
      serve_write fs st i k q ps s file a h e w r x c n b p v client d most least in
    delivered accounts st (file_env fs st) (i ∷ k ∷ q ∷ flat ps) s l
      (ack_packets 0 (suc (length ps))) (path_join (get_root_dir st) s.opt.filename) file served u
