-- ===== src/Session/Run/Receiving/Negotiated.antt =====
-- source/tftpSession.cpp: a write request with options, up to its last block.
use server_fw.Prelude.{
  ℕ, suc, ◌+◌, ◌*◌, ◌^◌, ◌<◌, ◌≤◌, ◌≡◌, refl, sym, ap, subst, ◌∙◌, arith, true, false, List, [],
  ◌∷◌, length, take, some, none, ok,
}
use server_fw.Prelude.Text.{Bytes}
use server_fw.Common.{SrvReq, State}
use server_fw.Addr.{Addr, same_addr}
use server_fw.Options.{was_set_any}
use server_fw.Settings.{Settings, get_root_dir}
use server_fw.SmBufEx.{SmBufEx}
use server_fw.DataMgr.File.{DataMgrFile}
use server_fw.DataMgr.File.Search.{Files, path_join}
use server_fw.DataMgr.File.Opening.{init_of_write}
use server_fw.Session.{Session, switch_to, was_error, block_size, windowsize}
use server_fw.Session.Packets.Layout.{IsLocal, smbuf_ex-IsLocal}
use server_fw.Session.Packets.Reply.{AreInts, construct_opt_reply-Holds}
use server_fw.Session.Run.{Input, Loop, start, step_in, on_ack_options, rounds}
use server_fw.Session.Run.Steps.{prefixed-ok, rounds_two}
use server_fw.Session.Run.Transfer.{blocks}
use server_fw.Session.Run.Service.{file_env, prepared, nothing}
use server_fw.Session.Run.Negotiation.{reply_packet}
use server_fw.Session.Run.Receiving.Upload.{closes}
use server_fw.Session.Run.Receiving.Stored.{Stored}
use server_fw.Session.Run.Receiving.Windows.{
  Delivered, turns, window_acks, last_now, upload_windows,
}

-- The session that replied to its options, which awaits the first block.
abbrev pub awaiting : Input → Session → DataMgrFile → SmBufEx → Loop
awaiting k s m b = record (start s) {
  session = record s { stat = State.data_rx; stage = 1; file_man = some m };
  local_buf = b;
  oper_time = k.now;
}

reply_sent :
    (i : Input) (l : Loop)
    → l.session.stat ≡ State.ack_options
    → IsLocal l.local_buf
    → AreInts l.session.opt
    → was_set_any l.session.opt ≡ true
    → l.session.opt.request_type ≡ SrvReq.write
    → (b : SmBufEx) × IsLocal b
      × (on_ack_options i l
          ≡ ok (
            record l {
              session = record l.session { stat = State.data_rx; stage = 1 };
              local_buf = b;
              oper_time = i.now;
            },
            reply_packet l.session ∷ [],
          ))
unfolding on_ack_options switch_to
reply_sent i l h v ints any r =
    let (b, e, p) = construct_opt_reply-Holds l.session.opt l.local_buf v ints any in
    (b, p.local, ground (arith, any, e, p.counted, p.held))

-- The blocks of a write request with options, from the start of `run`.
pub serve_write_options :
    (fs : Files) (st : Settings) (i k : Input) (ps : List (Input × Input)) (s : Session)
    (file : Bytes) (a : Addr)
    → s.stat ≡ State.need_init
    → was_error s ≡ false
    → was_set_any s.opt ≡ true
    → AreInts s.opt
    → s.opt.request_type ≡ SrvReq.write
    → fs.exists (path_join (get_root_dir st) s.opt.filename) ≡ false
    → fs.create_error (path_join (get_root_dir st) s.opt.filename) ≡ none
    → length file + block_size s < 2 ^ 63
    → block_size s ≤ 65531
    → 0 < block_size s
    → same_addr a s.cl_addr ≡ true
    → Delivered a 1 ps (blocks file (block_size s) 0 (length ps))
    → length ps * block_size s ≤ length file + block_size s
    → length file < length ps * block_size s
    → (m : DataMgrFile) × (b : SmBufEx) × (l : Loop) × (rounds
          (file_env fs st)
          (i ∷ k ∷ turns (windowsize s) 1 ps)
          (start s)
        ≡ ok (l, reply_packet s ∷ window_acks (windowsize s) 1 (length ps)))
      × Stored
          (closes (windowsize s) (length ps))
          (last_now ps)
          (suc (length ps))
          (awaiting k s m b)
          l
          (path_join (get_root_dir st) s.opt.filename)
          file
unfolding step_in
serve_write_options fs st i k ps s file a h e any ints r x c n b p client d most least =
    let (got, opens, v0) = init_of_write fs st s.opt r x c in
    let m = got.mgr in
    let env = file_env fs st in
    let w = windowsize s in
    let l0 : Loop = record (start s) {
      session = record s { stat = State.ack_options; stage = 0; file_man = some m };
    } in
    let (buf, local, reply) = reply_sent k l0 refl smbuf_ex-IsLocal ints any r in
    let l1 = awaiting k s m buf in
    let (l, run, u) =
      upload_windows file (block_size s) w env ps l1 m 0 a
        (record {
          sized = refl;
          part = v0.empty ∙ ap (λ (n : ℕ). take n file) (sym (nothing (block_size s)));
        })
        (record {
          state = refl;
          file = refl;
          writing = v0.writes;
          local = local;
          stage_is = refl;
          roomy = b;
          nonzero = p;
          whole = ap length v0.empty ∙ sym (nothing (block_size s));
          window = refl;
          client = client;
        })
        d n (omega arith) (omega (arith, most)) (omega (arith, least)) in
    let u0 : Stored (closes w (length ps)) (last_now ps) (suc (length ps)) l1 l m.filename file =
      subst (λ (y : ℕ). Stored (closes w y) (last_now ps) (suc y) l1 l m.filename file)
        (omega arith) u in
    (
      m,
      buf,
      l,
      rounds_two env i k (turns w 1 ps) (start s)
            (ap (λ (y : State). step_in y env i (start s)) h
              ∙ prepared env s got refl refl h e opens v0.granted v0.silent)
            reply
          ∙ prefixed-ok (reply_packet s ∷ []) _ _ run,
      subst
          (λ (y : Bytes). Stored (closes w (length ps)) (last_now ps) (suc (length ps)) l1 l y file)
          v0.named u0,
    )
