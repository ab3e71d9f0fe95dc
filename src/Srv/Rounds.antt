-- ===== src/Srv/Rounds.antt =====
-- source/tftpSrv.cpp: what the rounds of `main_loop` do with the sessions.
use server_fw.Prelude.{
  ℕ, ◌+◌, ◌≤◌, ◌≡◌, ◌≢◌, ◌⊎◌, inl, inr, refl, ap, ◌∙◌, arith, true, false, List, [], ◌∷◌, ◌++◌,
  length, drop, put, none, some, Result, ok, ◌>>=◌, Bool-cases, drop-put, length-put, subst,
}
use server_fw.Prelude.Text.{Bytes}
use server_fw.Addr.{Addr, set_port}
use server_fw.Options.{Options, buffer_parse}
use server_fw.Options.Request.{apply_options}
use server_fw.Options.Request.RoundTrip.{Sent, packet, IsSent, plain, buffer_parse-packet}
use server_fw.SmBuf.Words.{Fits}
use server_fw.Settings.{Settings}
use server_fw.DataMgr.File.Blocks.{take-all}
use server_fw.Session.{Session, session, is_finished}
use server_fw.Session.Prepare.{prepare}
use server_fw.Srv.{Srv, Sys, init, socket_open, Loop, reap, accept, round, enter, fresh_buf, reaped}

abbrev pub AllRunning : List Session → Type 0
AllRunning [] = Unit {0}
AllRunning (s ∷ ss) = (is_finished s ≡ false) × AllRunning ss

-- The first session that has finished, among the others.
pub record IsReaped (ss rest : List Session) : Type 0 where
  pub before : List Session
  pub gone : Session
  pub after : List Session
  pub all : ss ≡ before ++ gone ∷ after
  pub left : rest ≡ before ++ after
  pub over : is_finished gone ≡ true
  pub running : AllRunning before

pub reap-skip :
    (s : Session) (ss : List Session) → is_finished s ≡ false → reap (s ∷ ss) ≡ s ∷ reap ss
reap-skip s ss e = rw e refl

pub reap-here : (s : Session) (ss : List Session) → is_finished s ≡ true → reap (s ∷ ss) ≡ ss
reap-here s ss e = rw e refl

-- A round takes at most one session off the list, the first that has finished, and only if it has;
-- the others stay, in their order.
pub reap_lem : (ss : List Session) → (AllRunning ss × (reap ss ≡ ss)) ⊎ IsReaped ss (reap ss)
reap_lem [] = inl (tt, refl)
reap_lem (s ∷ ss) = elim (Bool-cases (is_finished s)) [
  | inl e ↦ inr (record {
    before = [];
    gone = s;
    after = ss;
    all = refl;
    left = reap-here s ss e;
    over = e;
    running = tt;
  })
  | inr e ↦ elim (reap_lem ss) [
    | inl (a, q) ↦ inl ((e, a), reap-skip s ss e ∙ ap (◌∷◌ s) q)
    | inr r ↦ inr (record {
      before = s ∷ r.before;
      gone = r.gone;
      after = r.after;
      all = ap (◌∷◌ s) r.all;
      left = reap-skip s ss e ∙ ap (◌∷◌ s) r.left;
      over = r.over;
      running = (e, r.running);
    })
  ]
]

-- The server has the new socket exactly if its `init` succeeds: a socket whose `bind` fails is closed
-- again.
pub init_lem :
    (sys : Sys) (s : Srv)
    → (((init sys s).0 ≡ true) → ((init sys s).1.socket ≡ sys.new_socket) × (sys.new_socket ≢ none))
      × (((init sys s).0 ≡ false) → (init sys s).1.socket ≡ none)
unfolding init socket_open
init_lem sys s = ground arith

-- A new server enters the loop without a socket, since it is number 0 and not -1 that the loop takes
-- for a missing one.
pub enter-unopened :
    (sys : Sys) (s : Srv)
    → s.socket ≡ none
    → (l : Loop) × (enter sys s ≡ some l) × (l.server.socket ≡ none)
unfolding enter
enter-unopened sys s e =
    (record { server = record s { stop = false }; pkt_buf = fresh_buf }, ground arith, e)

-- The session of a request.
abbrev pub requested : Settings → Addr → Options → Session
requested st a o = record session { my_addr = set_port st.local_base 0; cl_addr = a; opt = o }

accept-parsed :
    (s : Srv) (a : Addr) (buf : Bytes) (n : ℕ) (o : Options)
    → 9 ≤ n
    → buffer_parse buf n ≡ ok (true, o)
    → accept s a buf n ≡ ok (record s { sessions = s.sessions ++ requested s.settings a o ∷ [] })
unfolding accept prepare
accept-parsed s a buf n o h e = ground (arith, e)

-- A packet put over an older one is parsed as it stands.
parsed_again :
    (buf : Bytes) (r : Sent) (o : Options)
    → IsSent r
    → apply_options (plain r) r.opts ≡ ok o
    → length (packet r) ≤ length buf
    → Fits buf
    → buffer_parse (put buf 0 (packet r)) (length (packet r)) ≡ ok (true, o)
parsed_again buf r o w e b f =
    ap (λ (xs : Bytes). buffer_parse xs (length (packet r))) whole
    ∙ buffer_parse-packet r (drop (length (packet r)) buf) w
        (subst Fits whole (omega (arith, f, length-put buf 0 (packet r))))
    ∙ ap (λ (m : Result Options). m >>= λ o'. ok (true, o')) e
  where
    whole : put buf 0 (packet r) ≡ packet r ++ drop (length (packet r)) buf
    whole =
        let none_before : 0 + length (packet r) ≡ length (packet r) = omega arith in
        drop-put buf 0 (packet r) (omega (arith, b))
        ∙ ap (λ (n : ℕ). packet r ++ drop n buf) none_before

-- The packet of a client's request, of nine bytes at least, adds one session at the end of the list:
-- with the client's address and the request's options, whatever stood in the packet buffer.
pub round-packet :
    (l : Loop) (a : Addr) (r : Sent) (o : Options)
    → IsSent r
    → apply_options (plain r) r.opts ≡ ok o
    → 9 ≤ length (packet r)
    → length (packet r) ≤ length l.pkt_buf
    → Fits l.pkt_buf
    → (l' : Loop) × (round (some (a, packet r)) l ≡ ok l')
      × (l'.server.sessions ≡ reap (l.server.sessions ++ requested l.server.settings a o ∷ []))
unfolding round
round-packet l a r o w e n b f = (
  reaped (put l.pkt_buf 0 (packet r))
      (record l.server { sessions = l.server.sessions ++ requested l.server.settings a o ∷ [] }),
  ap
        (λ (xs : Bytes). accept l.server a (put l.pkt_buf 0 xs) (length xs) >>= λ s.
          ok (reaped (put l.pkt_buf 0 xs) s))
        (take-all (length l.pkt_buf) (packet r) b)
      ∙ ap (λ (m : Result Srv). m >>= λ s. ok (reaped (put l.pkt_buf 0 (packet r)) s))
          (accept-parsed l.server a (put l.pkt_buf 0 (packet r)) (length (packet r)) o n
            (parsed_again l.pkt_buf r o w e b f)),
  refl,
)
