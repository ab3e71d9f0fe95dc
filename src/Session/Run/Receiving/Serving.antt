-- ===== src/Session/Run/Receiving/Serving.antt =====
-- source/tftpSession.cpp: a whole write request, from the start of `run` to its end.
use server_fw.Prelude.{
  ℕ, zero, suc, ◌+◌, ◌*◌, ◌%◌, ◌^◌, ◌<◌, ◌≤◌, ◌≡◌, refl, sym, ap, subst, ◌∙◌, arith, true, false,
  List, [], ◌∷◌, if◌then◌else◌, Bool, length, take, some, none, ok,
}
use server_fw.Prelude.Text.{Bytes}
use server_fw.Common.{SrvReq, State}
use server_fw.Addr.{Addr, same_addr}
use server_fw.Options.{was_set_any}
use server_fw.Settings.{Settings, get_root_dir}
use server_fw.DataMgr.File.{DataMgrFile}
use server_fw.DataMgr.File.Search.{Files, path_join}
use server_fw.DataMgr.File.Opening.{init_of_write}
use server_fw.Session.{Session, switch_to, was_error, block_size, windowsize}
use server_fw.Session.Packets.Layout.{smbuf_ex-IsLocal, word}
use server_fw.Session.Run.{Input, Loop, start, step_in, on_ack_options, rounds}
use server_fw.Session.Run.Steps.{prefixed, prefixed-ok, prefixed-prefixed, rounds_one, rounds_two}
use server_fw.Session.Run.Transfer.{flat, blocks}
use server_fw.Session.Run.Service.{file_env, prepared, nothing}
use server_fw.Session.Run.Receiving.{ack_packets, acked, ack_sent}
use server_fw.Session.Run.Receiving.Upload.{closes}
use server_fw.Session.Run.Receiving.Stored.{Stored}
use server_fw.Session.Run.Receiving.Windows.{
  Delivered, turns, window_acks, last_now, upload_windows,
}

-- The session after a whole upload.
pub record Uploaded (l : Loop) (name file : Bytes) : Type 0 where
  pub mgr : DataMgrFile
  pub kind : mgr.request_type ≡ SrvReq.write
  pub file_man : l.session.file_man ≡ some mgr
  pub filename : mgr.filename ≡ name
  pub content : mgr.file_out.content ≡ file
  pub finished : l.session.stat ≡ State.finish

pub Stored-Uploaded :
    (shut : Bool) (clock stage : ℕ) (l0 l : Loop) (name file : Bytes)
    → shut ≡ true
    → Stored shut clock stage l0 l name file
    → Uploaded l name file
Stored-Uploaded shut clock stage l0 l name file e s = record {
  mgr = s.mgr;
  kind = s.writing.kind;
  file_man = s.file_man;
  filename = s.filename;
  content = s.content;
  finished = s.state ∙ ap (λ (x : Bool). if x then State.finish else State.data_rx) e;
}

-- With one block to a window each block closes its own.
closes_one : (stage : ℕ) → closes 1 stage ≡ true
closes_one stage = ground arith

turns_one : (stage : ℕ) (ps : List (Input × Input)) → turns 1 stage ps ≡ flat ps
turns_one stage [] = refl
turns_one stage ((i, k) ∷ ps) =
    rw (closes_one stage) (ap (λ (is : List Input). i ∷ k ∷ is) (turns_one (suc stage) ps))

window_acks_one : (stage n : ℕ) → window_acks 1 stage n ≡ ack_packets stage n
window_acks_one stage zero = refl
window_acks_one stage (suc n) =
    rw (closes_one stage) (ap (◌∷◌ (0 ∷ 4 ∷ word (stage % 2 ^ 16))) (window_acks_one (suc stage) n))

-- The session after its two rounds of preparation, and after the acknowledgement of the request.
abbrev granted : Input → Session → DataMgrFile → Loop
granted i s m = record (start s) {
  session = record s { stat = State.ack_tx; stage = 0; file_man = some m };
  oper_time = i.now;
}

no_options :
    (i : Input) (l : Loop)
    → l.session.stat ≡ State.ack_options
    → was_set_any l.session.opt ≡ false
    → l.session.opt.request_type ≡ SrvReq.write
    → on_ack_options i l
      ≡ ok (
        record l {
          session = record l.session { stat = State.ack_tx; stage = 0 };
          oper_time = i.now;
        },
        [],
      )
unfolding on_ack_options switch_to
no_options i l h w r = ground (arith, w)

-- A write request without options and with one block to a window, as `run` serves it on a system
-- whose sockets work and where no file has the name and one can be created. If the client sends the
-- blocks of a file in turn, each once the one before is acknowledged, and the disk takes them, the
-- session acknowledges the request and every block, and finishes with exactly the content of that
-- file in the one it created under the root directory. The session is new, its block size fits the
-- buffer, and the blocks are as many as the file has, the last of which is short.
pub serve_write :
    (fs : Files) (st : Settings) (i k q : Input) (ps : List (Input × Input)) (s : Session)
    (file : Bytes) (a : Addr)
    → s.stat ≡ State.need_init
    → was_error s ≡ false
    → was_set_any s.opt ≡ false
    → s.opt.request_type ≡ SrvReq.write
    → fs.exists (path_join (get_root_dir st) s.opt.filename) ≡ false
    → fs.create_error (path_join (get_root_dir st) s.opt.filename) ≡ none
    → length file + block_size s < 2 ^ 63
    → block_size s ≤ 65531
    → 0 < block_size s
    → windowsize s ≡ 1
    → same_addr a s.cl_addr ≡ true
    → Delivered a 1 ps (blocks file (block_size s) 0 (length ps))
    → length ps * block_size s ≤ length file + block_size s
    → length file < length ps * block_size s
    → (l : Loop) × (rounds (file_env fs st) (i ∷ k ∷ q ∷ flat ps) (start s)
        ≡ ok (l, ack_packets 0 (suc (length ps))))
      × Uploaded l (path_join (get_root_dir st) s.opt.filename) file
unfolding step_in
serve_write fs st i k q ps s file a h e w r x c n b p v client d most least =
    let (got, opens, v0) = init_of_write fs st s.opt r x c in
    let m = got.mgr in
    let env = file_env fs st in
    let (buf, local, ack) = ack_sent q (granted k s m) smbuf_ex-IsLocal refl refl in
    let (l, run, u) =
      upload_windows file (block_size s) 1 env ps (acked q (granted k s m) buf) m 0 a
        (record {
          sized = refl;
          part = v0.empty ∙ ap (λ (n : ℕ). take n file) (sym (nothing (block_size s)));
        })
        (record {
          state = refl;
          file = refl;
          writing = v0.writes;
          local = local;
          stage_is = refl;
          roomy = b;
          nonzero = p;
          whole = ap length v0.empty ∙ sym (nothing (block_size s));
          window = v;
          client = client;
        })
        d n (omega arith) (omega (arith, most)) (omega (arith, least)) in
    (
      l,
      rounds_two env i k (q ∷ flat ps) (start s)
            (ap (λ (x : State). step_in x env i (start s)) h
              ∙ prepared env s got refl refl h e opens v0.granted v0.silent)
            (no_options k _ refl w r)
          ∙ ap (prefixed []) (rounds_one env q (flat ps) (granted k s m) ack)
          ∙ prefixed-prefixed [] ((0 ∷ 4 ∷ word (0 % 2 ^ 16)) ∷ []) _
          ∙ prefixed-ok ((0 ∷ 4 ∷ word (0 % 2 ^ 16)) ∷ []) _ _ (
              ap (λ (is : List Input). rounds env is (acked q (granted k s m) buf))
                (sym (turns_one 1 ps))
              ∙ run
              ∙ ap (λ (xs : List Bytes). ok (l, xs)) (window_acks_one 1 (length ps))),
      subst (λ (x : Bytes). Uploaded l x file) v0.named
          (Stored-Uploaded (closes 1 (0 + length ps)) (last_now ps) (suc (0 + length ps))
            (acked q (granted k s m) buf) l m.filename file (closes_one (0 + length ps)) u),
    )
