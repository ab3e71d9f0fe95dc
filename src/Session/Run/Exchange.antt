-- ===== src/Session/Run/Exchange.antt =====
-- source/tftpSession.cpp: a block that is sent and its acknowledgement, the two rounds.
use server_fw.Prelude.{
  ℕ, ◌+◌, ◌*◌, ◌/◌, ◌%◌, ◌^◌, ◌≤◌, ◌≡◌, refl, ap, ◌∙◌, arith, Bool, true, List, [], ◌∷◌, length, ok,
  some, length-put,
}
use server_fw.Prelude.Text.{Bytes}
use server_fw.Common.{State, TripleResult}
use server_fw.Addr.{Addr, same_addr}
use server_fw.SmBufEx.{SmBufEx}
use server_fw.DataMgr.File.{DataMgrFile}
use server_fw.Session.{Session, block_size, blk_num_local, windowsize, is_window_close}
use server_fw.Session.Packets.Layout.{IsLocal}
use server_fw.Session.Receive.{Rx, packet, receive_ack, rx_stage, dispatch, receive_no_wait}
use server_fw.Session.Receive.Numbers.{arrived, framed, receive_framed}
use server_fw.Session.Run.{Env, Input, Loop, on_ack_rx, after_ack, step_in, rounds}
use server_fw.Session.Run.Steps.{prefixed, rounds_two}
use server_fw.Session.Run.Sending.{IsSending, Built, data_tx_round, after_send, sent}

-- The ACK packet of a stage.
abbrev pub ack : Addr → ℕ → Rx
ack a stage = packet a (framed 4 (stage / 256 % 256) (stage % 256) [])

receive_ack_awaited :
    (s : Session) (b : SmBufEx) (blk : ℕ)
    → blk ≡ blk_num_local s
    → receive_ack s b blk ≡ record { result = TripleResult.ok; session = s; buf = b }
unfolding receive_ack rx_stage
receive_ack_awaited s b blk e = ground arith

dispatch_ack :
    (accepts : Bool) (s : Session) (b : SmBufEx) (size blk : ℕ)
    → s.stat ≡ State.ack_rx
    → dispatch accepts s b size 4 blk ≡ ok (receive_ack s b blk)
dispatch_ack accepts s b size blk h = rw h

word_value : (n : ℕ) → n / 256 % 256 * 256 + n % 256 ≡ n % 2 ^ 16
word_value n = omega arith

receive_awaited_ack :
    (accepts : Bool) (s : Session) (b : SmBufEx) (a : Addr)
    → IsLocal b
    → same_addr a s.cl_addr ≡ true
    → s.stat ≡ State.ack_rx
    → receive_no_wait accepts (ack a s.stage) s b
      ≡ ok (record {
        result = TripleResult.ok;
        session = s;
        buf = arrived b (framed 4 (s.stage / 256 % 256) (s.stage % 256) []);
      })
receive_awaited_ack accepts s b a l c h =
    receive_framed accepts s b a 4 (s.stage / 256 % 256) (s.stage % 256) [] l (omega arith) c
      (λ q. absurd (omega arith))
    ∙ dispatch_ack accepts s _ 4 _ h
    ∙ ap ok (receive_ack_awaited s _ _ (word_value s.stage))

pub on_ack_rx-awaited :
    (i : Input) (l : Loop) (a : Addr)
    → IsLocal l.local_buf
    → same_addr a l.session.cl_addr ≡ true
    → l.session.stat ≡ State.ack_rx
    → i.rx ≡ ack a l.session.stage
    → on_ack_rx i l
      ≡ ok (
        after_ack i l l.session (
            arrived l.local_buf
              (framed 4 (l.session.stage / 256 % 256) (l.session.stage % 256) [])),
        [],
      )
unfolding on_ack_rx
on_ack_rx-awaited i l a v c h e =
    ground (arith, e, receive_awaited_ack i.accepts l.session l.local_buf a v c h)

pub arrived-IsLocal :
    (b : SmBufEx) (bytes : Bytes) → IsLocal b → length bytes ≤ 65535 → IsLocal (arrived b bytes)
arrived-IsLocal b bytes l h = record {
  valid = record {
    fits = omega (arith, l.valid.fits, length-put b.buf 0 bytes);
    within = omega (arith, l.size, length-put b.buf 0 bytes);
  };
  size = length-put b.buf 0 bytes ∙ l.size;
  big = l.big;
  ended = l.ended;
}

pub single_window : (s : Session) → windowsize s ≡ 1 → is_window_close s s.stage ≡ true
unfolding is_window_close
single_window s h = ground (arith, h)

-- The buffer once the acknowledgement of a stage arrived.
abbrev pub answered : SmBufEx → ℕ → SmBufEx
answered b stage = arrived b (framed 4 (stage / 256 % 256) (stage % 256) [])

-- What a block and its acknowledgement leave.
abbrev pub exchanged : Input → Input → Loop → DataMgrFile → SmBufEx → Loop
exchanged i k l m b =
    after_ack k (after_send i l (record l.session { file_man = some m }) b)
      (record l.session { file_man = some m; stat = State.ack_rx }) (answered b l.session.stage)

pub exchange :
    (env : Env) (i k : Input) (l : Loop) (m : DataMgrFile) (j : ℕ) (a : Addr) (rest : List Input)
    (v : IsSending l m j) (inside : j * block_size l.session ≤ length m.file_in.content)
    → windowsize l.session ≡ 1
    → same_addr a l.session.cl_addr ≡ true
    → k.rx ≡ ack a l.session.stage
    → (m' : DataMgrFile) × (b : SmBufEx) × Built i l m j v inside m' b
      × (rounds env (i ∷ k ∷ rest) l
          ≡ prefixed (sent i l m j v inside ∷ []) (rounds env rest (exchanged i k l m' b)))
unfolding rounds step_in
exchange env i k l m j a rest v inside single c e =
    let (m', b, r, p) = (data_tx_round i l m j v inside).0 (single_window l.session single) in
    let q =
      on_ack_rx-awaited k (after_send i l (record l.session { file_man = some m' }) b) a r.local' c
        refl e in
    (m', b, r, rounds_two env i k rest l (ap (λ (x : State). step_in x env i l) v.state ∙ p) q)
