-- ===== src/Session/Run/Negotiation/Window.antt =====
-- source/tftpSession.cpp: a read request whose window has several blocks.
use server_fw.Prelude.{
  ℕ, ◌+◌, ◌*◌, ◌%◌, ◌^◌, ◌<◌, ◌≤◌, ◌≡◌, inl, refl, ap, ◌∙◌, arith, true, false, List, [], ◌∷◌,
  length, replicate, slice, ◌==◌, some, none, ok,
}
use server_fw.Prelude.Text.{Bytes}
use server_fw.Common.{SrvReq, State}
use server_fw.Addr.{same_addr, Addr}
use server_fw.Options.{was_set_any}
use server_fw.Settings.{Settings}
use server_fw.DataMgr.File.{DataMgrFile}
use server_fw.DataMgr.File.Search.{Files}
use server_fw.DataMgr.File.Opening.{find_file}
use server_fw.Session.{Session, was_error, block_size, windowsize, is_window_close}
use server_fw.Session.Packets.Reply.{AreInts}
use server_fw.Session.Run.{Env, Input, Loop, start, step_in, rounds}
use server_fw.Session.Run.Sending.{IsSending, data_bytes, send_again, taken, data_tx_round}
use server_fw.Session.Run.Steps.{prefixed, prefixed-ok, in_state, rounds_one}
use server_fw.Session.Run.Exchange.{ack}
use server_fw.Session.Run.Service.{file_env, nothing}
use server_fw.Session.Run.Negotiation.{reply_packet, agreed}

-- A session within a window, at a block that does not end the file.
record IsStuck (content : Bytes) (size stage : ℕ) (l : Loop) (m : DataMgrFile) (j : ℕ)
    : Type 0 where
  pub sends : IsSending l m j
  pub same : m.file_in.content ≡ content
  pub sized : block_size l.session ≡ size
  pub staged : l.session.stage ≡ stage
  pub within : is_window_close l.session l.session.stage ≡ false
  pub more : j * size + size ≤ length content

-- The packet of the block, by the content and the size.
packet_eq :
    (content : Bytes) (size stage : ℕ) (env : Env) (rest : List Input) (l' l : Loop)
    (m : DataMgrFile) (j : ℕ)
    → IsStuck content size stage l m j
    → prefixed
        (data_bytes l.session.stage
            (slice m.file_in.content (j * block_size l.session) (block_size l.session))
          ∷ [])
        (rounds env rest l')
      ≡ prefixed (data_bytes stage (slice content (j * size) size) ∷ []) (rounds env rest l')
packet_eq content size stage env rest l' l m j t = rw t.same (rw t.sized (rw t.staged refl))

IsStuck-round :
    (content : Bytes) (size stage : ℕ) (env : Env) (i : Input) (rest : List Input) (l : Loop)
    (m : DataMgrFile) (j : ℕ)
    → IsStuck content size stage l m j
    → (l' : Loop) × (m' : DataMgrFile) × IsStuck content size stage l' m' j
      × (rounds env (i ∷ rest) l
          ≡ prefixed (data_bytes stage (slice content (j * size) size) ∷ []) (rounds env rest l'))
unfolding is_window_close was_error step_in
IsStuck-round content size stage env i rest l m j t =
    let enough : j * block_size l.session + block_size l.session ≤ length m.file_in.content =
      omega (arith, ap length t.same, ap (◌*◌ j) t.sized, t.sized, t.more) in
    let inside : j * block_size l.session ≤ length m.file_in.content = omega (arith, enough) in
    let (m', b, r, e) = (data_tx_round i l m j t.sends inside).1 t.within enough in
    (
      send_again l (taken i l m j t.sends inside m') b,
      m',
      record {
        sends = record {
          state = t.sends.state;
          file = refl;
          reading = r.reading';
          good = r.good' (inl enough);
          local = r.local';
          no_error = t.sends.no_error;
          stage_is = t.sends.stage_is;
          roomy = t.sends.roomy;
          nonzero = t.sends.nonzero;
        };
        same = r.same_file ∙ t.same;
        sized = t.sized;
        staged = t.staged;
        within = t.within;
        more = t.more;
      },
      rounds_one env i rest l (in_state env i l State.data_tx t.sends.state ∙ e)
          ∙ packet_eq content size stage env rest _ l m j t,
    )

IsStuck-rounds :
    (content : Bytes) (size stage : ℕ) (env : Env) (is : List Input) (l : Loop) (m : DataMgrFile)
    (j : ℕ)
    → IsStuck content size stage l m j
    → (l' : Loop) × (rounds env is l
        ≡ ok (l', replicate (length is) (data_bytes stage (slice content (j * size) size))))
      × (l'.session.stat ≡ State.data_tx)
unfolding rounds
IsStuck-rounds content size stage env [] l m j t = (l, refl, t.sends.state)
IsStuck-rounds content size stage env (i ∷ is) l m j t =
    let (l1, m1, t1, e) = IsStuck-round content size stage env i is l m j t in
    let (l', run, s) = IsStuck-rounds content size stage env is l1 m1 j t1 in
    (l', e ∙ prefixed-ok (data_bytes stage (slice content (j * size) size) ∷ []) _ _ run, s)

one_of_many : (n : ℕ) → 1 < n → 1 % n ≡ 1
one_of_many n h = grind arith

within : (s : Session) → s.stage ≡ 1 → 1 < windowsize s → is_window_close s s.stage ≡ false
unfolding is_window_close
within s h w =
    ap (λ (x : ℕ). x == 0) (ap (λ (x : ℕ). x % windowsize s) h ∙ one_of_many (windowsize s) w)

-- A read request with options, a window of more than one block and a file of at least one block: once
-- the client acknowledges the reply to its options, the session sends the first block in every round
-- there is, whatever comes from the client, and never sends another packet nor finishes. The session
-- is new, on a system whose sockets work and where the file is found and can be opened, the numbers of
-- its options are those of an `int`, and its block size fits the buffer.
pub window_endless :
    (fs : Files) (st : Settings) (i k q : Input) (is : List Input) (s : Session) (file : Bytes)
    (a : Addr)
    → s.stat ≡ State.need_init
    → was_error s ≡ false
    → was_set_any s.opt ≡ true
    → AreInts s.opt
    → s.opt.request_type ≡ SrvReq.read
    → find_file fs st s.opt.filename ≡ some file
    → fs.open_error file ≡ none
    → length (fs.content file) < 2 ^ 63
    → block_size s ≤ 65531
    → 0 < block_size s
    → 1 < windowsize s
    → block_size s ≤ length (fs.content file)
    → same_addr a s.cl_addr ≡ true
    → q.rx ≡ ack a 0
    → (l : Loop) × (rounds (file_env fs st) (i ∷ k ∷ q ∷ is) (start s)
        ≡ ok (
          l,
          reply_packet s
              ∷ replicate (length is) (data_bytes 1 (slice (fs.content file) 0 (block_size s))),
        ))
      × (l.session.stat ≡ State.data_tx)
window_endless fs st i k q is s file a h e w ints r f o n b p v more c zero_ack =
    let (l0, g, begun) = agreed fs st i k q is s file a h e w ints r f o n b p c zero_ack in
    let (l, run, d) =
      IsStuck-rounds (fs.content file) (block_size s) 1 (file_env fs st) is l0 g.m 0 (record {
        sends = g.sends;
        same = g.same;
        sized = g.sized;
        staged = g.sends.stage_is;
        within = within l0.session g.sends.stage_is (omega (arith, g.windowed, v));
        more = omega (arith, more, nothing (block_size s));
      }) in
    (
      l,
      begun
          ∙ prefixed-ok (reply_packet s ∷ []) _ _ (
              run
              ∙ ap
                  (λ (p : ℕ). ok (
                    l,
                    replicate (length is) (data_bytes 1 (slice (fs.content file) p (block_size s))),
                  ))
                  (nothing (block_size s))),
      d,
    )
