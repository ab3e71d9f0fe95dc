-- ===== src/Session/Run/Negotiation.antt =====
-- source/tftpSession.cpp: a read request with options, from the start of `run` to its end.
pub mod Window
pub mod Lost
use server_fw.Prelude.{
  ℕ, ◌+◌, ◌*◌, ◌/◌, ◌%◌, ◌^◌, ◌<◌, ◌≤◌, ◌≡◌, refl, ap, ◌∙◌, arith, true, false, List, [], ◌∷◌,
  length, some, none, ok, drop,
}
use server_fw.Prelude.Text.{Bytes}
use server_fw.Common.{SrvReq, State}
use server_fw.Addr.{Addr, same_addr}
use server_fw.Options.{was_set_any}
use server_fw.Options.Request.{option_bytes}
use server_fw.Settings.{Settings}
use server_fw.SmBufEx.{SmBufEx}
use server_fw.DataMgr.File.{DataMgrFile}
use server_fw.DataMgr.File.Blocks.{IsReading, IsGood}
use server_fw.DataMgr.File.Search.{Files}
use server_fw.DataMgr.File.Opening
use server_fw.DataMgr.File.Opening.{find_file, init_of_read}
use server_fw.Session.{Session, switch_to, was_error, block_size, windowsize}
use server_fw.Session.Packets.{construct_opt_reply}
use server_fw.Session.Packets.Layout.{IsLocal, smbuf_ex-IsLocal}
use server_fw.Session.Packets.Reply.{AreInts, reply_pairs, construct_opt_reply-Holds}
use server_fw.Session.Receive.Numbers.{arrived, framed}
use server_fw.Session.Run.{Input, Loop, start, step_in, on_ack_options, after_ack, rounds}
use server_fw.Session.Run.Sending.{IsSending}
use server_fw.Session.Run.Steps.{prefixed, prefixed-ok, prefixed-prefixed, rounds_one, rounds_two}
use server_fw.Session.Run.Exchange.{ack, on_ack_rx-awaited, arrived-IsLocal}
use server_fw.Session.Run.Transfer.{Acknowledged, flat, blocks, data_packets, joined, transfer_of}
use server_fw.Session.Run.Service.{file_env, prepared, joined-whole}

-- The reply to the options of a request, as RFC 2347 lays it out.
abbrev pub reply_packet : Session → Bytes
reply_packet s = 0 ∷ 6 ∷ option_bytes (reply_pairs s.opt)

-- The session that awaits the acknowledgement of its reply.
abbrev replied : Input → Loop → SmBufEx → Loop
replied i l b = record l {
  session = record l.session { stat = State.ack_rx; stage = 0 };
  local_buf = b;
  oper_time = i.now;
}

reply_of :
    (i : Input) (l : Loop)
    → l.session.stat ≡ State.ack_options
    → IsLocal l.local_buf
    → AreInts l.session.opt
    → was_set_any l.session.opt ≡ true
    → l.session.opt.request_type ≡ SrvReq.read
    → (b : SmBufEx) × IsLocal b
      × (construct_opt_reply l.session.opt l.local_buf ≡ ok b)
      × (on_ack_options i l ≡ ok (replied i l b, reply_packet l.session ∷ []))
unfolding on_ack_options switch_to
reply_of i l h v ints any r =
    let (b, e, p) = construct_opt_reply-Holds l.session.opt l.local_buf v ints any in
    (b, p.local, e, ground (arith, any, e, p.counted, p.held))

-- The session once the reply is acknowledged, which sends the first block.
abbrev negotiated : Input → Loop → SmBufEx → Loop
negotiated q l b = record l {
  session = record l.session { stat = State.data_tx; stage = l.session.stage + 1 };
  local_buf = b;
  oper_time = q.now;
}

after_ack-negotiated :
    (q : Input) (l : Loop) (b : SmBufEx)
    → l.session.stat ≡ State.ack_rx
    → l.last_blk_processed ≡ false
    → after_ack q l l.session b ≡ negotiated q l b
unfolding switch_to
after_ack-negotiated q l b h n = ground arith

negotiated-IsSending :
    (q : Input) (l : Loop) (m : DataMgrFile) (b : SmBufEx)
    → l.session.stage ≡ 0
    → l.session.file_man ≡ some m
    → IsReading m
    → IsGood m.file_in
    → IsLocal b
    → was_error l.session ≡ false
    → block_size l.session ≤ 65531
    → 0 < block_size l.session
    → IsSending (negotiated q l b) m 0
unfolding was_error
negotiated-IsSending q l m b z f r g v e n p = record {
  state = refl;
  file = f;
  reading = r;
  good = g;
  local = v;
  no_error = e;
  stage_is = omega (arith, z);
  roomy = n;
  nonzero = p;
}

-- What the client's acknowledgement of the reply leaves: a session that sends the first block.
record Agreed (s : Session) (content : Bytes) (l : Loop) : Type 0 where
  pub m : DataMgrFile
  pub sends : IsSending l m 0
  pub sized : block_size l.session ≡ block_size s
  pub windowed : windowsize l.session ≡ windowsize s
  pub client : l.session.cl_addr ≡ s.cl_addr
  pub same : m.file_in.content ≡ content

-- The three rounds of a read request with options that come before the first block.
agreed :
    (fs : Files) (st : Settings) (i k q : Input) (rest : List Input) (s : Session) (file : Bytes)
    (a : Addr)
    → s.stat ≡ State.need_init
    → was_error s ≡ false
    → was_set_any s.opt ≡ true
    → AreInts s.opt
    → s.opt.request_type ≡ SrvReq.read
    → find_file fs st s.opt.filename ≡ some file
    → fs.open_error file ≡ none
    → length (fs.content file) < 2 ^ 63
    → block_size s ≤ 65531
    → 0 < block_size s
    → same_addr a s.cl_addr ≡ true
    → q.rx ≡ ack a 0
    → (l : Loop) × Agreed s (fs.content file) l
      × (rounds (file_env fs st) (i ∷ k ∷ q ∷ rest) (start s)
          ≡ prefixed (reply_packet s ∷ []) (rounds (file_env fs st) rest l))
unfolding step_in was_error
agreed fs st i k q rest s file a h e w ints r f o n b p c zero_ack =
    let (got, opens, v0) = init_of_read fs st s.opt file r f o n in
    let m = got.mgr in
    let env = file_env fs st in
    let l0 : Loop = record (start s) {
      session = record s { stat = State.ack_options; stage = 0; file_man = some m };
    } in
    let (buf, local, _, reply) = reply_of k l0 refl smbuf_ex-IsLocal ints w r in
    let l1 = replied k l0 buf in
    let buf' = arrived buf (framed 4 (0 / 256 % 256) (0 % 256) []) in
    (
      negotiated q l1 buf',
      record {
        m = m;
        sends =
            negotiated-IsSending q l1 m buf' refl refl v0.reads v0.good
              (arrived-IsLocal buf _ local (omega arith)) e b p;
        sized = refl;
        windowed = refl;
        client = refl;
        same = v0.same;
      },
      rounds_two env i k (q ∷ rest) (start s)
            (ap (λ (x : State). step_in x env i (start s)) h
              ∙ prepared env s got refl refl h e opens v0.granted v0.silent)
            reply
          ∙ ap (prefixed (reply_packet s ∷ [])) (
              rounds_one env q rest l1 (
                on_ack_rx-awaited q l1 a local c refl zero_ack
                ∙ ap (λ (x : Loop). ok (x, [])) (after_ack-negotiated q l1 buf' refl refl)))
          ∙ prefixed-prefixed (reply_packet s ∷ []) [] _,
    )

-- A read request with options, whose window is one block, as `run` serves it on a system whose sockets
-- work and where a file is found for the name and can be opened. The session first replies with the
-- options it took, each with its number. If the client acknowledges the reply with number 0 and then
-- each block, the session sends the blocks of the file, of the size agreed on, in order and numbered
-- from 1, and finishes; the blocks make up exactly the content of the file. The session is new, the numbers of its options are those of an `int`,
-- its block size fits the buffer, and the acknowledgements of blocks are as many as the file has, the
-- last of which is short.
pub serve_read_options :
    (fs : Files) (st : Settings) (i k q : Input) (ps : List (Input × Input)) (s : Session)
    (file : Bytes) (a : Addr)
    → s.stat ≡ State.need_init
    → was_error s ≡ false
    → was_set_any s.opt ≡ true
    → AreInts s.opt
    → s.opt.request_type ≡ SrvReq.read
    → find_file fs st s.opt.filename ≡ some file
    → fs.open_error file ≡ none
    → length (fs.content file) < 2 ^ 63
    → block_size s ≤ 65531
    → 0 < block_size s
    → windowsize s ≡ 1
    → same_addr a s.cl_addr ≡ true
    → q.rx ≡ ack a 0
    → Acknowledged a 1 ps
    → length ps * block_size s ≤ length (fs.content file) + block_size s
    → length (fs.content file) < length ps * block_size s
    → (l : Loop) × (rounds (file_env fs st) (i ∷ k ∷ q ∷ flat ps) (start s)
        ≡ ok (
          l,
          reply_packet s ∷ data_packets 1 (blocks (fs.content file) (block_size s) 0 (length ps)),
        ))
      × (joined (blocks (fs.content file) (block_size s) 0 (length ps)) ≡ fs.content file)
      × (l.session.stat ≡ State.finish)
serve_read_options fs st i k q ps s file a h e w ints r f o n b p v c zero_ack acks most least =
    let (l0, g, begun) = agreed fs st i k q (flat ps) s file a h e w ints r f o n b p c zero_ack in
    let content = fs.content file in
    let (l, run, done) =
      transfer_of content (block_size s) (file_env fs st) ps l0 g.m 0 a g.same g.sized g.sends
        (record { window = g.windowed ∙ v; client = ap (same_addr a) g.client ∙ c }) acks
        (omega arith) (omega (arith, most)) (omega (arith, least)) in
    (
      l,
      begun ∙ prefixed-ok (reply_packet s ∷ []) _ _ run,
      joined-whole content (block_size s) (length ps) (omega (arith, least)),
      done,
    )
