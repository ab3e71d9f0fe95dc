-- ===== src/Session/Run/Safety/Total.antt =====
-- source/tftpSession.cpp: every round of a read request is defined.
use server_fw.Prelude.{◌≡◌, inl, inr, refl, ◌∙◌, List, [], ◌∷◌, ◌++◌, ok}
use server_fw.Prelude.Text.{Bytes}
use server_fw.Common.{State}
use server_fw.Session.Packets.Total.{construct_data_total}
use server_fw.Session.Run.{Env, Input, Loop, step_in, rounds}
use server_fw.Session.Run.Sending.{on_data_tx-built, after_send, send_again}
use server_fw.Session.Run.Steps.{in_state, rounds_none, rounds_one, prefixed-ok}
use server_fw.Session.Run.Safety.{IsReader, Alive, Steps, IsReader-kept, IsReader-built}
use server_fw.Session.Run.Safety.Ways.{
  after_data_ways, ack_ways, retransmit_ways, stop_ways, finish_step, late, told_of, error_packet,
}

data_tx-Alive :
    (env : Env) (i : Input) (l : Loop) → l.session.stat ≡ State.data_tx → IsReader l → Steps env i l
unfolding step_in
data_tx-Alive env i l h r =
    let (s, b, e, t) =
      construct_data_total l.session r.m l.local_buf r.local r.kind r.roomy r.told in
    let begun = in_state env i l State.data_tx h ∙ on_data_tx-built i l r.m s b r.file e in
    let (p, ways) = after_data_ways i l s b (t.same_stat ∙ h) in
    elim ways [
      | inl k ↦ (
        after_send i l s b,
        p,
        begun ∙ k,
        Alive.waits refl (IsReader-built l (after_send i l s b) s b r t refl refl refl refl),
      )
      | inr (inl k) ↦ (
        send_again l s b,
        p,
        begun ∙ k,
        Alive.sends (t.same_stat ∙ h)
            (IsReader-built l (send_again l s b) s b r t refl refl refl refl),
      )
      | inr (inr k) ↦ (
        record l { session = record s { stat = State.error_and_stop }; local_buf = b },
        p,
        begun ∙ k,
        Alive.stops (record {
          state = refl;
          local = t.local;
          told = record { text = t.told.text; brief = t.told.brief };
        }),
      )
    ]

ack_rx-Alive :
    (env : Env) (i : Input) (l : Loop) → l.session.stat ≡ State.ack_rx → IsReader l → Steps env i l
unfolding step_in
ack_rx-Alive env i l h r =
    let (b, v, ways) = ack_ways i l h r.local r.limit in
    let begun = in_state env i l State.ack_rx h in
    elim ways [
      | inl e ↦ (
        record l { local_buf = b },
        [],
        begun ∙ e,
        Alive.waits h (IsReader-kept l (record l { local_buf = b }) r v refl refl refl),
      )
      | inr (inl e) ↦ (
        late l b,
        [],
        begun ∙ e,
        Alive.retries refl (IsReader-kept l (late l b) r v refl refl refl),
      )
      | inr (inr (inl (n, _, _, e))) ↦ (
        told_of i l n b,
        [],
        begun ∙ e,
        Alive.sends refl (IsReader-kept l (told_of i l n b) r v refl refl refl),
      )
      | inr (inr (inr (s, f, e))) ↦
          (record l { session = s; local_buf = b }, [], begun ∙ e, Alive.finished f)
    ]

retransmit-Alive :
    (env : Env) (i : Input) (l : Loop)
    → l.session.stat ≡ State.retransmit
    → IsReader l
    → Steps env i l
unfolding step_in
retransmit-Alive env i l h r =
    let (c, ways) = retransmit_ways env i l h r.asked in
    let begun = in_state env i l State.retransmit h in
    elim ways [
      | inl e ↦
          let l' : Loop = record l {
            session = record l.session { stat = State.data_tx };
            retr_count = c;
            oper_time = i.now;
          } in
          (l', [], begun ∙ e, Alive.sends refl (IsReader-kept l l' r r.local refl refl refl))
      | inr e ↦ (
        record l { session = record l.session { stat = State.error_and_stop }; retr_count = c },
        [],
        begun ∙ e,
        Alive.stops (record {
          state = refl;
          local = r.local;
          told = record { text = r.told.text; brief = r.told.brief };
        }),
      )
    ]

Alive-step : (env : Env) (i : Input) (l : Loop) → Alive l → Steps env i l
Alive-step env i l (Alive.sends h r) = data_tx-Alive env i l h r
Alive-step env i l (Alive.waits h r) = ack_rx-Alive env i l h r
Alive-step env i l (Alive.retries h r) = retransmit-Alive env i l h r
Alive-step env i l (Alive.stops v) =
    let (l', f, ways) = stop_ways env i l v in
    elim ways [
      | inl e ↦ (l', [], e, Alive.finished f)
      | inr e ↦ (l', error_packet l.session ∷ [], e, Alive.finished f)
    ]
Alive-step env i l (Alive.finished h) = (l, [], finish_step env i l h, Alive.finished h)

-- Every run of such a session is defined.
pub rounds-Alive :
    (env : Env) (is : List Input) (l : Loop)
    → Alive l
    → (l' : Loop) × (p : List Bytes) × (rounds env is l ≡ ok (l', p)) × Alive l'
rounds-Alive env [] l a = (l, [], rounds_none env l, a)
rounds-Alive env (i ∷ is) l a =
    let (l1, p, e, a1) = Alive-step env i l a in
    let (l2, q, f, a2) = rounds-Alive env is l1 a1 in
    (l2, p ++ q, rounds_one env i is l e ∙ prefixed-ok p q (rounds env is l1) f, a2)
