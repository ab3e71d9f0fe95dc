-- ===== src/Session/Receive/Acks.antt =====
-- What a look at the socket gives a session that awaits an acknowledgement, whatever the packet.
use server_fw.Prelude.{
  ℕ, ◌+◌, ◌≤◌, ◌≡◌, ◌⊎◌, inl, inr, refl, sym, ◌∙◌, arith, Bool, false, [], length, take, drop, put,
  ltb, ◌==◌, Option, some, none, ok, ◌>>=◌, subst, Bool-cases, slice, length-put, length-take,
  le→leb,
}
use server_fw.Prelude.Text.{Bytes}
use server_fw.Common.{State, TripleResult}
use server_fw.Addr.{Addr, same_addr}
use server_fw.SmBuf.{get_be, get_string, be_value, until_zero}
use server_fw.SmBuf.Words.{is_valid_of_le}
use server_fw.SmBufEx.{SmBufEx, data_size_reset}
use server_fw.Session.{Session, set_error_if_first}
use server_fw.Session.Packets.Layout.{IsLocal}
use server_fw.Session.Receive.{
  Rx, again, failed, packet, Received, rx_stage, receive_ack, received, receive_no_wait, dispatch,
  header, error_text, ignored,
}
use server_fw.Session.Receive.Numbers.{arrived}
use server_fw.Session.Receive.Stored.{at_stage, follow-at_stage}

-- Nothing of interest, an acknowledgement with the stage it stands for, or a failure.
abbrev pub AckOutcome : Session → Received → Type 0
AckOutcome s r =
    ((r.result ≡ TripleResult.nop) × (r.session ≡ s))
    ⊎ (((r.result ≡ TripleResult.ok) × (n : ℕ) × (n ≤ s.stage + 1) × (r.session ≡ at_stage s n))
        ⊎ ((r.result ≡ TripleResult.fail) × (r.session.stat ≡ s.stat)))

session_at :
    (s : Session) (b : SmBufEx) (blk n : ℕ)
    → rx_stage s blk ≡ some n
    → ltb (s.stage + 1) n ≡ false
    → (receive_ack s b blk).session ≡ at_stage s n
unfolding receive_ack
session_at s b blk n e h = ground (arith, e, h, follow-at_stage s blk n e)

-- By the stage of the number.
outcome_at :
    (s : Session) (b : SmBufEx) (blk : ℕ) (stage : Option ℕ)
    → rx_stage s blk ≡ stage
    → AckOutcome s (receive_ack s b blk) × ((receive_ack s b blk).buf ≡ b)
unfolding receive_ack set_error_if_first
outcome_at s b blk none e = (inr (inr (ground (arith, e), ground (arith, e))), ground (arith, e))
outcome_at s b blk (some n) e = elim (Bool-cases (ltb (s.stage + 1) n)) [
  | inl far ↦ (inr (inr (ground (arith, e, far), ground (arith, e, far))), ground (arith, e, far))
  | inr near ↦ (
    inr (inl (ground (arith, e, near), n, ground (arith, near), session_at s b blk n e near)),
    ground (arith, e, near),
  )
]

header_total :
    (b : SmBufEx) (size offset : ℕ)
    → IsLocal b
    → offset ≤ 2
    → (v : ℕ) × (header b size offset ≡ ok v)
unfolding get_be
header_total b size offset l h =
    let valid =
      is_valid_of_le b.buf offset 2 l.valid.fits (omega (arith, l.size)) (omega (arith, l.size)) in
    elim (Bool-cases (ltb 3 size)) [
      | inl c ↦ (be_value (slice b.buf offset 2), rw c (rw valid refl))
      | inr c ↦ (0, rw c refl)
    ]

text_total : (b : SmBufEx) (op : ℕ) → IsLocal b → (t : Bytes) × (error_text b op ≡ ok t)
unfolding get_string
text_total b op l =
    let valid =
      is_valid_of_le b.buf 4 0 l.valid.fits (omega (arith, l.size)) (omega (arith, l.size)) in
    elim (Bool-cases (op == 5)) [
      | inl c ↦ (
        until_zero (drop 4 b.buf),
        rw c (rw valid (rw (le→leb 4 (length b.buf) (omega (arith, l.size))) refl)),
      )
      | inr c ↦ ([], rw c refl)
    ]

dispatch_outcome :
    (accepts : Bool) (s : Session) (b : SmBufEx) (size op blk : ℕ)
    → s.stat ≡ State.ack_rx
    → (r : Received) × (dispatch accepts s b size op blk ≡ ok r) × AckOutcome s r × (r.buf ≡ b)
dispatch_outcome accepts s b size op blk h = elim (Bool-cases (op == 4)) [
  | inl c ↦
      let (o, e) = outcome_at s b blk (rx_stage s blk) refl in
      (receive_ack s b blk, ground (arith, c), o, e)
  | inr c ↦ (ignored s b, ground (arith, c), inl (refl, refl), refl)
]

received_outcome :
    (accepts : Bool) (s : Session) (b : SmBufEx) (a : Addr) (size : ℕ)
    → IsLocal b
    → s.stat ≡ State.ack_rx
    → (r : Received) × (received accepts s b a size ≡ ok r) × AckOutcome s r × (r.buf ≡ b)
unfolding received
received_outcome accepts s b a size l h =
    let (op, e1) = header_total b size 0 l (omega arith) in
    let (blk, e2) = header_total b size 2 l (omega arith) in
    let (text, e3) = text_total b op l in
    elim (Bool-cases (same_addr a s.cl_addr)) [
      | inl c ↦
          let (r, e, o, k) = dispatch_outcome accepts s b size op blk h in
          (r, rw e1 (rw e2 (rw e3 (rw c e))), o, k)
      | inr c ↦ (ignored s b, rw e1 (rw e2 (rw e3 (rw c refl))), inl (refl, refl), refl)
    ]

reset :
    (accepts : Bool) (s : Session) (b : SmBufEx) (a : Addr) (given : Bytes)
    → length given ≤ length b.buf
    → (data_size_reset (record b { buf = put b.buf 0 given }) (length given) >>= λ b'.
        received accepts s b' a (length given))
      ≡ received accepts s (arrived b given) a (length given)
unfolding data_size_reset
reset accepts s b a given h = ground (arith, length-put b.buf 0 given)

-- A look at the socket is defined for every packet, and leaves a buffer of the same kind.
pub ack_outcome :
    (accepts : Bool) (rx : Rx) (s : Session) (b : SmBufEx)
    → IsLocal b
    → s.stat ≡ State.ack_rx
    → (r : Received) × (receive_no_wait accepts rx s b ≡ ok r) × AckOutcome s r × IsLocal r.buf
unfolding receive_no_wait
ack_outcome accepts again s b l h = (ignored s b, refl, inl (refl, refl), l)
ack_outcome accepts failed s b l h =
    (record { result = TripleResult.fail; session = s; buf = b }, refl, inr (inr (refl, refl)), l)
ack_outcome accepts (packet a bytes) s b l h =
    let given = take (length b.buf) bytes in
    let fits : length given ≤ length b.buf = omega (arith, length-take (length b.buf) bytes) in
    let local : IsLocal (arrived b given) = record {
      valid = record {
        fits = omega (arith, l.valid.fits, length-put b.buf 0 given);
        within = omega (arith, fits, length-put b.buf 0 given);
      };
      size = length-put b.buf 0 given ∙ l.size;
      big = l.big;
      ended = l.ended;
    } in
    let (r, e, o, k) = received_outcome accepts s (arrived b given) a (length given) local h in
    (r, reset accepts s b a given fits ∙ e, o, subst IsLocal (sym k) local)
