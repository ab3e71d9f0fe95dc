-- ===== src/Session/Run/Service.antt =====
-- A read request from the start of `run` to its end, with the files of the system.
use server_fw.Prelude.{
  ℕ, ◌+◌, ◌*◌, ◌^◌, ◌<◌, ◌≤◌, ◌≡◌, refl, ap, ◌∙◌, arith, true, false, List, [], ◌∷◌, length, some,
  none, ok, drop,
}
use server_fw.Prelude.Text.{Bytes}
use server_fw.Common.{SrvReq, State}
use server_fw.Addr.{Addr, same_addr}
use server_fw.Options.{was_set_any}
use server_fw.Settings.{Settings}
use server_fw.DataMgr.File.{DataMgrFile}
use server_fw.DataMgr.File.Blocks.{IsReading, IsGood}
use server_fw.DataMgr.File.Search.{Files}
use server_fw.DataMgr.File.Opening
use server_fw.DataMgr.File.Opening.{Init, find_file, init_of_read}
use server_fw.Session.{Session, switch_to, was_error, block_size, windowsize}
use server_fw.Session.Packets.Layout.{smbuf_ex-IsLocal}
use server_fw.Session.Run.{
  Env, Input, Loop, start, step_in, init, on_need_init, on_ack_options, rounds,
}
use server_fw.Session.Run.Sending.{IsSending}
use server_fw.Session.Run.Steps.{prefixed-ok, rounds_two}
use server_fw.Session.Run.Transfer.{
  Acknowledged, flat, blocks, data_packets, joined, joined-blocks, transfer_of,
}

-- The answers of a system with the given files, on which `socket` and `bind` succeed.
abbrev pub file_env : Files → Settings → Env
file_env fs st = record {
  socket_ok = true;
  bind_ok = true;
  open_file = Opening.init fs st;
  retransmit_count = st.retransmit_count;
}

-- The session after its two rounds of preparation.
abbrev pub ready : Input → Session → DataMgrFile → Loop
ready i s m = record (start s) {
  session = record s { stat = State.data_tx; stage = 1; file_man = some m };
  oper_time = i.now;
}

pub prepared :
    (env : Env) (s : Session) (o : Init)
    → env.socket_ok ≡ true
    → env.bind_ok ≡ true
    → s.stat ≡ State.need_init
    → was_error s ≡ false
    → env.open_file s.opt ≡ ok o
    → o.ret ≡ true
    → o.report ≡ none
    → on_need_init env (start s)
      ≡ ok (
        record (start s) {
          session = record s { stat = State.ack_options; stage = 0; file_man = some o.mgr };
        },
        [],
      )
unfolding on_need_init init switch_to was_error
prepared env s o x y h e q r p = ground (arith, x, y, q, r, p)

pub no_options :
    (i : Input) (l : Loop)
    → l.session.stat ≡ State.ack_options
    → was_set_any l.session.opt ≡ false
    → l.session.opt.request_type ≡ SrvReq.read
    → on_ack_options i l
      ≡ ok (
        record l {
          session = record l.session { stat = State.data_tx; stage = 1 };
          oper_time = i.now;
        },
        [],
      )
unfolding on_ack_options switch_to
no_options i l h w r = ground (arith, w)

pub ready-IsSending :
    (i : Input) (s : Session) (m : DataMgrFile)
    → IsReading m
    → IsGood m.file_in
    → was_error s ≡ false
    → block_size s ≤ 65531
    → 0 < block_size s
    → IsSending (ready i s m) m 0
unfolding was_error
ready-IsSending i s m r g e b p = record {
  state = refl;
  file = refl;
  reading = r;
  good = g;
  local = smbuf_ex-IsLocal;
  no_error = e;
  stage_is = refl;
  roomy = b;
  nonzero = p;
}

pub nothing : (n : ℕ) → 0 * n ≡ 0
nothing n = omega arith

pub joined-whole :
    (content : Bytes) (size n : ℕ)
    → length content ≤ n * size
    → joined (blocks content size 0 n) ≡ content
joined-whole content size n h =
    joined-blocks content size 0 n (omega (arith, h))
    ∙ ap (λ (p : ℕ). drop p content) (nothing size)

-- A read request without options and with one block to a window, as `run` serves it on a system
-- whose sockets work and where a file is found for the name and can be opened. If each block is
-- acknowledged, the session sends exactly the content of that file, in DATA packets numbered from 1,
-- and finishes. The session is new, its block size fits the buffer, and the client's acknowledgements
-- are as many as the file has blocks, the last of which is short.
pub serve_read :
    (fs : Files) (st : Settings) (i k : Input) (ps : List (Input × Input)) (s : Session)
    (file : Bytes) (a : Addr)
    → s.stat ≡ State.need_init
    → was_error s ≡ false
    → was_set_any s.opt ≡ false
    → s.opt.request_type ≡ SrvReq.read
    → find_file fs st s.opt.filename ≡ some file
    → fs.open_error file ≡ none
    → length (fs.content file) < 2 ^ 63
    → block_size s ≤ 65531
    → 0 < block_size s
    → windowsize s ≡ 1
    → same_addr a s.cl_addr ≡ true
    → Acknowledged a 1 ps
    → length ps * block_size s ≤ length (fs.content file) + block_size s
    → length (fs.content file) < length ps * block_size s
    → (l : Loop) × (rounds (file_env fs st) (i ∷ k ∷ flat ps) (start s)
        ≡ ok (l, data_packets 1 (blocks (fs.content file) (block_size s) 0 (length ps))))
      × (joined (blocks (fs.content file) (block_size s) 0 (length ps)) ≡ fs.content file)
      × (l.session.stat ≡ State.finish)
unfolding step_in
serve_read fs st i k ps s file a h e w r f o n b p v c ack most least =
    let (got, opens, v0) = init_of_read fs st s.opt file r f o n in
    let m = got.mgr in
    let content = fs.content file in
    let (l, run, done) =
      transfer_of content (block_size s) (file_env fs st) ps (ready k s m) m 0 a v0.same refl
        (ready-IsSending k s m v0.reads v0.good e b p) (record { window = v; client = c }) ack
        (omega arith) (omega (arith, most)) (omega (arith, least)) in
    (
      l,
      rounds_two (file_env fs st) i k (flat ps) (start s)
            (ap (λ (x : State). step_in x (file_env fs st) i (start s)) h
              ∙ prepared (file_env fs st) s got refl refl h e opens v0.granted v0.silent)
            (no_options k _ refl w r)
          ∙ prefixed-ok [] _ _ run,
      joined-whole content (block_size s) (length ps) (omega (arith, least)),
      done,
    )
