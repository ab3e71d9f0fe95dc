-- ===== src/Session/Run/Ending/Refused.antt =====
-- source/tftpSession.cpp and source/tftpDataMgrFile.cpp: whole runs of requests whose file is refused.
use server_fw.Prelude.{◌≡◌, refl, ap, subst, ◌∙◌, arith, true, false, List, [], ◌∷◌, ◌++◌, some, ok}
use server_fw.Prelude.Text.{Bytes, codes}
use server_fw.Common.{SrvReq, State}
use server_fw.Common.Users.{Accounts}
use server_fw.Settings.{Settings, get_root_dir}
use server_fw.DataMgr.File.{DataMgrFile}
use server_fw.DataMgr.File.Search.{Files, path_join}
use server_fw.DataMgr.File.Opening.{Closed, close, curr_perm, init_exists}
use server_fw.Session.{Session, switch_to, was_error, set_error_if_first}
use server_fw.Session.Packets.Layout.{smbuf_ex-IsLocal}
use server_fw.Session.Run.{Env, Input, Loop, start, init, step_in, on_need_init}
use server_fw.Session.Run.Steps.{prefixed-ok, rounds_two, finish_stays}
use server_fw.Session.Run.Service.{file_env}
use server_fw.Session.Run.Safety.{IsStopping}
use server_fw.Session.Run.Safety.Ways.{error_told}
use server_fw.Session.Run.Ending.{run, run-finished, owner}

abbrev exists_text : Bytes
exists_text = codes "File already exists"

abbrev exists_packet : Bytes
exists_packet = 0 ∷ 5 ∷ 0 ∷ 6 ∷ (codes "File already exists" ++ 0 ∷ [])

-- The session whose file was refused.
abbrev refused : Session → DataMgrFile → Loop
refused s m = record (start s) {
  session = record s {
    stat = State.error_and_stop;
    stage = 0;
    file_man = some m;
    error_code = 6;
    error_message = exists_text;
  };
}

taken_name :
    (env : Env) (s : Session) (m : DataMgrFile)
    → env.socket_ok ≡ true
    → env.bind_ok ≡ true
    → s.stat ≡ State.need_init
    → was_error s ≡ false
    → env.open_file s.opt ≡ ok (record { ret = false; mgr = m; report = some (6, exists_text) })
    → on_need_init env (start s) ≡ ok (refused s m, [])
unfolding on_need_init init switch_to was_error set_error_if_first
taken_name env s m x y h e q = ground (arith, x, y, q, h, e)

refused-IsStopping : (s : Session) (m : DataMgrFile) → IsStopping (refused s m)
refused-IsStopping s m = record {
  state = refl;
  local = smbuf_ex-IsLocal;
  told = record { text = omega arith; brief = omega arith };
}

-- What closing leaves of a file that was refused.
pub record Shut (accounts : Accounts) (st : Settings) (name : Bytes) (c : Closed) : Type 0 where
  pub unwritten : c.mgr.file_out.content ≡ []
  pub filename : c.mgr.filename ≡ name
  pub owned : c.chown ≡ owner accounts st
  pub mode : c.chmod ≡ some (curr_perm st.file_chmod)

close-Shut :
    (accounts : Accounts) (st : Settings) (m : DataMgrFile)
    → m.request_type ≡ SrvReq.write
    → m.file_out.content ≡ []
    → Shut accounts st m.filename (close accounts st m)
unfolding close
close-Shut accounts st m k z = record {
  unwritten = ground (arith, k, z);
  filename = ground (arith, k);
  owned = ground (arith, k);
  mode = ground (arith, k);
}

-- A write request for a file that exists is answered with one ERROR packet, of code 6, and no other,
-- whatever the client sends, and no byte is written. Still the close at the end of the run asks the
-- system to give the file the mode of the settings and, if they name a user or a group, the owner,
-- as for a file that was received. The session is new and its socket works.
pub run_exists :
    (accounts : Accounts) (fs : Files) (st : Settings) (i k : Input) (is : List Input) (s : Session)
    → s.stat ≡ State.need_init
    → was_error s ≡ false
    → s.opt.request_type ≡ SrvReq.write
    → fs.exists (path_join (get_root_dir st) s.opt.filename) ≡ true
    → (c : Closed) × (run accounts st (file_env fs st) (i ∷ k ∷ is) s
        ≡ ok ((0 ∷ 5 ∷ 0 ∷ 6 ∷ (codes "File already exists" ++ 0 ∷ [])) ∷ [], some c))
      × Shut accounts st (path_join (get_root_dir st) s.opt.filename) c
unfolding step_in was_error
run_exists accounts fs st i k is s h e r x =
    let env = file_env fs st in
    let (m, kind, empty, named, q) = init_exists fs st s.opt r x in
    let (b, told) = error_told (refused s m) (refused-IsStopping s m) refl in
    let l : Loop = record (refused s m) {
      session = record (refused s m).session { stat = State.finish };
      local_buf = b;
    } in
    (
      close accounts st m,
      run-finished accounts st env (i ∷ k ∷ is) s l _
          (rounds_two env i k is (start s)
              (ap (λ (y : State). step_in y env i (start s)) h ∙ taken_name env s m refl refl h e q)
              told
            ∙ prefixed-ok (exists_packet ∷ []) [] _ (finish_stays env is l refl))
          refl,
      subst (λ (y : Bytes). Shut accounts st y (close accounts st m)) named
          (close-Shut accounts st m kind empty),
    )
