-- ===== src/Session/Run/Safety/Waits.antt =====
-- source/tftpSession.cpp: the rounds of a read request that send no block.
use native.Mathlib.Nat.{mul-le-mul_right}
use server_fw.Prelude.{
  ℕ, suc, ◌+◌, ◌*◌, ◌^◌, ◌<◌, ◌≤◌, ◌≡◌, inl, inr, refl, ap, ◌∙◌, arith, true, [], length, ok,
}
use server_fw.Prelude.Text.{Bytes}
use server_fw.Common.{State}
use server_fw.SmBufEx.{SmBufEx}
use server_fw.Session.{Session, switch_to, was_error, position}
use server_fw.Session.Packets.Total.{construct_data_beyond}
use server_fw.Session.Run.{Env, Input, Loop, step_in, after_data}
use server_fw.Session.Run.Sending.{on_data_tx-built, position-suc, below}
use server_fw.Session.Run.Steps.{in_state}
use server_fw.Session.Run.Safety.Ways.{ack_ways, retransmit_ways, late, told_of}
use server_fw.Session.Run.Safety.Proper.{IsFresh, Fresh, FreshStep, IsFresh-kept}

two_more : (j size : ℕ) → (suc j + 1) * size ≡ j * size + size + size
two_more j size = grind arith

further : (n j size : ℕ) → n ≤ suc j + 1 → n * size ≤ j * size + size + size
further n j size h = omega (arith, mul-le-mul_right size h, two_more j size)

pub waits_step :
    (content : Bytes) (size : ℕ) (env : Env) (i : Input) (l : Loop) (j : ℕ)
    → l.session.stat ≡ State.ack_rx
    → IsFresh content size j l
    → j * size + size ≤ length content
    → FreshStep content size env i l
unfolding step_in
waits_step content size env i l j h v full =
    let (b, local, ways) = ack_ways i l h v.reader.local v.reader.limit in
    let begun = in_state env i l State.ack_rx h in
    elim ways [
      | inl e ↦
          let l' : Loop = record l { local_buf = b } in
          (
            l',
            [],
            begun ∙ e,
            inl (
              refl,
              Fresh.waits h j
                  (IsFresh-kept content size j j l l' v local refl refl refl refl v.staged) full,
            ),
          )
      | inr (inl e) ↦ (
        late l b,
        [],
        begun ∙ e,
        inl (
          refl,
          Fresh.retries refl j
              (IsFresh-kept content size j j l (late l b) v local refl refl refl refl v.staged)
              full,
        ),
      )
      | inr (inr (inl (n, near, _, e))) ↦ (
        told_of i l n b,
        [],
        begun ∙ e,
        inl (
          refl,
          Fresh.sends refl n
              (IsFresh-kept content size j n l (told_of i l n b) v local refl refl refl refl
                (omega arith))
              (omega (arith, further n j size (omega (arith, near, v.staged)), full)),
        ),
      )
      | inr (inr (inr (s, f, e))) ↦
          (record l { session = s; local_buf = b }, [], begun ∙ e, inr (inr (refl, inr f)))
    ]

pub retries_step :
    (content : Bytes) (size : ℕ) (env : Env) (i : Input) (l : Loop) (j : ℕ)
    → l.session.stat ≡ State.retransmit
    → IsFresh content size j l
    → j * size + size ≤ length content
    → FreshStep content size env i l
unfolding step_in
retries_step content size env i l j h v full =
    let (c, ways) = retransmit_ways env i l h v.reader.asked in
    let begun = in_state env i l State.retransmit h in
    elim ways [
      | inl e ↦
          let l' : Loop = record l {
            session = record l.session { stat = State.data_tx };
            retr_count = c;
            oper_time = i.now;
          } in
          (
            l',
            [],
            begun ∙ e,
            inl (
              refl,
              Fresh.sends refl j
                  (IsFresh-kept content size j j l l' v v.reader.local refl refl refl refl v.staged)
                  (omega (arith, full)),
            ),
          )
      | inr e ↦ (
        record l { session = record l.session { stat = State.error_and_stop }; retr_count = c },
        [],
        begun ∙ e,
        inr (
            inr (
              refl,
              inl (record {
                state = refl;
                local = v.reader.local;
                told = record { text = v.reader.told.text; brief = v.reader.told.brief };
              }),
            )),
      )
    ]

-- A block beyond the end of the file.
after_data-failed :
    (i : Input) (l : Loop) (s : Session) (b : SmBufEx)
    → s.stat ≡ State.data_tx
    → was_error s ≡ true
    → after_data i l s b
      ≡ ok (record l { session = record s { stat = State.error_and_stop }; local_buf = b }, [])
unfolding switch_to
after_data-failed i l s b h w = rw w (rw h refl)

pub beyond_step :
    (content : Bytes) (size : ℕ) (env : Env) (i : Input) (l : Loop) (j : ℕ)
    → l.session.stat ≡ State.data_tx
    → IsFresh content size j l
    → length content + size < 2 ^ 63
    → j * size ≤ length content + size
    → length content < j * size
    → FreshStep content size env i l
unfolding step_in
beyond_step content size env i l j h v room near far =
    let at : position l.session ≡ j * size =
      position-suc l.session j v.staged (below j size v.nonzero (omega (arith, room, near)))
        (omega (arith, room, near, ap (◌*◌ j) v.sized))
      ∙ ap (◌*◌ j) v.sized in
    let (s, b, e, t, w) =
      construct_data_beyond l.session v.m l.local_buf v.reader.local v.reading.kind v.reading.opened
        (omega (arith, v.reading.noted, ap length v.same, at, far)) (omega (arith, at, room, near))
        v.reader.roomy v.reader.told in
    (
      record l { session = record s { stat = State.error_and_stop }; local_buf = b },
      [],
      in_state env i l State.data_tx h
          ∙ on_data_tx-built i l v.m s b v.file e
          ∙ after_data-failed i l s b (t.same_stat ∙ h) w,
      inr (
          inr (
            refl,
            inl (record {
              state = refl;
              local = t.local;
              told = record { text = t.told.text; brief = t.told.brief };
            }),
          )),
    )
