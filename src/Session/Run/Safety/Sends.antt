-- ===== src/Session/Run/Safety/Sends.antt =====
-- source/tftpSession.cpp: the rounds of a read request that send a block.
use server_fw.Prelude.{
  ℕ, ◌+◌, ◌*◌, ◌^◌, ◌<◌, ◌≤◌, ◌≡◌, ◌⊎◌, inl, inr, refl, sym, ap, ◌∙◌, subst, arith, false,
  Bool-cases, [], ◌∷◌, length, some, ok,
}
use server_fw.Prelude.Text.{Bytes, NoZero}
use server_fw.Common.{State}
use server_fw.SmBufEx.{SmBufEx}
use server_fw.DataMgr.File.{DataMgrFile}
use server_fw.Session.{Session, switch_to, was_error, block_size, is_window_close}
use server_fw.Session.Packets.Layout.{IsLocal, Holds}
use server_fw.Session.Run.{Env, Input, Loop, step_in, on_data_tx, after_data}
use server_fw.Session.Run.Sending.{
  IsSending, Built, data_tx-Built, after_data-closed, after_data-open, after_send, send_again, sent,
  taken,
}
use server_fw.Session.Run.Steps.{in_state}
use server_fw.Session.Run.Safety.{IsReader, Alive}
use server_fw.Session.Run.Safety.Waits.{waits_step, retries_step, beyond_step}
use server_fw.Session.Run.Safety.Proper.{IsBlockOf, IsFresh, Fresh, FreshStep}

-- A block that ends the file is the last of its window in any case.
after_data-short :
    (i : Input) (l : Loop) (s : Session) (b : SmBufEx) (bytes : Bytes)
    → Holds b (0 ∷ bytes)
    → s.stat ≡ State.data_tx
    → was_error s ≡ false
    → b.data_size < block_size s + 4
    → after_data i l s b ≡ ok (after_send i l s b, (0 ∷ bytes) ∷ [])
unfolding switch_to
after_data-short i l s b bytes h e n f = ground (arith, h.counted, h.held)

IsFresh-IsSending :
    (content : Bytes) (size j : ℕ) (l : Loop) (v : IsFresh content size j l)
    → l.session.stat ≡ State.data_tx
    → IsSending l v.m j
IsFresh-IsSending content size j l v h = record {
  state = h;
  file = v.file;
  reading = v.reading;
  good = v.good;
  local = v.reader.local;
  no_error = v.no_error;
  stage_is = v.staged;
  roomy = v.reader.roomy;
  nonzero = omega (arith, v.nonzero, v.sized);
}

module _ (content : Bytes) (size : ℕ) (env : Env) (i : Input) (l : Loop) (j : ℕ)
    (h : l.session.stat ≡ State.data_tx) (v : IsFresh content size j l)
    (near : j * size ≤ length content) where
  abbrev sending : IsSending l v.m j
  sending = IsFresh-IsSending content size j l v h

  inside : j * block_size l.session ≤ length v.m.file_in.content
  inside = omega (arith, near, ap length v.same, ap (◌*◌ j) v.sized)

  abbrev packet : Bytes
  packet = sent i l v.m j sending inside

  packet-IsBlockOf : IsBlockOf content size j packet
  packet-IsBlockOf = record { inside = near; bytes = rw v.same (rw v.sized (rw v.staged refl)) }

  -- The session after the packet, once more or less as before.
  sent-Reader :
      (m' : DataMgrFile) (b : SmBufEx) (l' : Loop)
      → Built i l v.m j sending inside m' b
      → l'.local_buf ≡ b
      → l'.session.file_man ≡ some m'
      → l'.session.opt ≡ l.session.opt
      → l'.session.error_message ≡ l.session.error_message
      → IsReader l'
  sent-Reader m' b l' r f m o w = record {
    m = m';
    file = m;
    kind = r.reading'.kind;
    local = subst IsLocal (sym f) r.local';
    roomy = ground (arith, v.reader.roomy, o);
    asked = ground (arith, v.reader.asked, o);
    limit = ground (arith, v.reader.limit, o);
    told = record {
      text = subst NoZero (sym w) v.reader.told.text;
      brief = omega (arith, v.reader.told.brief, ap length w);
    };
  }

  sent-Fresh :
      (m' : DataMgrFile) (b : SmBufEx) (l' : Loop)
      → Built i l v.m j sending inside m' b
      → j * size + size ≤ length content
      → l'.local_buf ≡ b
      → l'.session.file_man ≡ some m'
      → l'.session.opt ≡ l.session.opt
      → l'.session.error_message ≡ l.session.error_message
      → l'.session.error_code ≡ l.session.error_code
      → l'.session.stage ≡ l.session.stage
      → IsFresh content size j l'
  unfolding was_error
  sent-Fresh m' b l' r full f m o w c s = record {
    reader = sent-Reader m' b l' r f m o w;
    m = m';
    file = m;
    reading = r.reading';
    good = r.good' (inl (omega (arith, full, ap length v.same, ap (◌*◌ j) v.sized, v.sized)));
    same = r.same_file ∙ v.same;
    sized = ground (arith, v.sized, o);
    nonzero = v.nonzero;
    no_error = ground (arith, v.no_error, w, c);
    staged = s ∙ v.staged;
  }

  full_step :
      (m' : DataMgrFile) (b : SmBufEx)
      → Built i l v.m j sending inside m' b
      → on_data_tx i l ≡ after_data i l (taken i l v.m j sending inside m') b
      → j * size + size ≤ length content
      → FreshStep content size env i l
  unfolding step_in was_error is_window_close
  full_step m' b r e full =
      let s = taken i l v.m j sending inside m' in
      let begun = in_state env i l State.data_tx h ∙ e in
      elim (Bool-cases (is_window_close s s.stage)) [
        | inl c ↦
            let l' = after_send i l s b in
            (
              l',
              packet ∷ [],
              begun ∙ after_data-closed i l s b _ r.held h v.no_error c,
              inr (
                  inl (
                    packet,
                    j,
                    refl,
                    packet-IsBlockOf,
                    inl (
                      full,
                      Fresh.waits refl j (sent-Fresh m' b l' r full refl refl refl refl refl refl)
                          full,
                    ),
                  )),
            )
        | inr c ↦
            let l' = send_again l s b in
            (
              l',
              packet ∷ [],
              begun
                  ∙ after_data-open i l s b _ r.held h v.no_error c
                      (omega (arith, r.sized, full, ap length v.same, ap (◌*◌ j) v.sized, v.sized)),
              inr (
                  inl (
                    packet,
                    j,
                    refl,
                    packet-IsBlockOf,
                    inl (
                      full,
                      Fresh.sends h j (sent-Fresh m' b l' r full refl refl refl refl refl refl)
                          (omega (arith, near)),
                    ),
                  )),
            )
      ]

  last_step :
      (m' : DataMgrFile) (b : SmBufEx)
      → Built i l v.m j sending inside m' b
      → on_data_tx i l ≡ after_data i l (taken i l v.m j sending inside m') b
      → length content < j * size + size
      → FreshStep content size env i l
  unfolding step_in was_error
  last_step m' b r e less =
      let s = taken i l v.m j sending inside m' in
      let l' = after_send i l s b in
      (
        l',
        packet ∷ [],
        in_state env i l State.data_tx h
            ∙ e
            ∙ after_data-short i l s b _ r.held h v.no_error
                (omega (arith, r.sized, less, ap length v.same, ap (◌*◌ j) v.sized, v.sized)),
        inr (
            inl (
              packet,
              j,
              refl,
              packet-IsBlockOf,
              inr (less, Alive.waits refl (sent-Reader m' b l' r refl refl refl refl)),
            )),
      )

sends_step :
    (content : Bytes) (size : ℕ) (env : Env) (i : Input) (l : Loop) (j : ℕ)
    → l.session.stat ≡ State.data_tx
    → IsFresh content size j l
    → length content + size < 2 ^ 63
    → j * size ≤ length content + size
    → FreshStep content size env i l
sends_step content size env i l j h v room near =
    let ways : (length content < j * size)
        ⊎ ((j * size ≤ length content)
            × ((j * size + size ≤ length content) ⊎ (length content < j * size + size))) =
      omega arith in
    elim ways [
      | inl far ↦ beyond_step content size env i l j h v room near far
      | inr (k, more) ↦
          let (m', b, r) =
            data_tx-Built i l v.m j (IsFresh-IsSending content size j l v h)
              (inside content size env i l j h v k) in
          elim more [
            | inl full ↦ full_step content size env i l j h v k m' b r r.round full
            | inr less ↦ last_step content size env i l j h v k m' b r r.round less
          ]
    ]

pub fresh_step :
    (content : Bytes) (size : ℕ) (env : Env) (i : Input) (l : Loop)
    → length content + size < 2 ^ 63
    → Fresh content size l
    → FreshStep content size env i l
fresh_step content size env i l room (Fresh.sends h j v near) =
    sends_step content size env i l j h v room near
fresh_step content size env i l room (Fresh.waits h j v full) =
    waits_step content size env i l j h v full
fresh_step content size env i l room (Fresh.retries h j v full) =
    retries_step content size env i l j h v full
