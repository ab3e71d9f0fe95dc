-- ===== src/Srv/Threads.antt =====
-- source/tftpSrv.cpp: the listener and the threads of its sessions, in any order of their steps.
use server_fw.Prelude.{
  ℕ, ◌≤◌, ◌≡◌, ◌⊎◌, inl, inr, refl, sym, ap, ◌∙◌, arith, subst, Bool, true, false, List, [], ◌∷◌,
  ◌++◌, length, put, take, Bool-cases, Option, some, none, ok, >>=-eq-ok, leb,
}
use server_fw.Prelude.Text.{Bytes}
use server_fw.Addr.{Addr}
use server_fw.Options.{Options, buffer_parse}
use server_fw.Options.Accepted.{IsRequest, buffer_parse-IsRequest}
use server_fw.Settings.{Settings}
use server_fw.Session.{Session, session, is_finished}
use server_fw.Session.Prepare.{prepare}
use server_fw.Session.Run
use server_fw.Session.Run.{Env, Input, step}
use server_fw.Session.Run.Frame.{SameRequest, step-SameRequest}
use server_fw.Srv.{Srv, Loop, reap, accept, round, reaped}
use server_fw.Srv.Rounds.{reap-here, reap-skip}

abbrev with_sessions : Loop → List Session → Loop
with_sessions w ss = record w { server = record w.server { sessions = ss } }

-- One step of the program: a round of the listener, or a round of one session's thread, whatever its
-- local variables are.
pub data Step : Loop → Loop → Type 0 where
  listen : (w w' : Loop) (p : Option (Addr × Bytes)) → round p w ≡ ok w' → Step w w'
  work :
      (w : Loop) (before after : List Session) (env : Env) (i : Input) (l l' : Run.Loop)
      (sent : List Bytes)
      → w.server.sessions ≡ before ++ l.session ∷ after
      → step env i l ≡ ok (l', sent)
      → Step w (with_sessions w (before ++ l'.session ∷ after))

pub data Reach (w : Loop) : Loop → Type 0 where
  here : Reach w w
  next : {w' w'' : Loop} → Reach w w' → Step w' w'' → Reach w w''

abbrev pub Has : Session → List Session → Type 0
Has s [] = ⊥
Has s (t ∷ ts) = (t ≡ s) ⊎ Has s ts

Has-reap : (s : Session) (ss : List Session) → Has s ss → is_finished s ≡ false → Has s (reap ss)
Has-reap s [] h n = h
Has-reap s (t ∷ ts) h n = elim (Bool-cases (is_finished t)) [
  | inl e ↦
      subst (Has s) (sym (reap-here t ts e))
        (elim h [ inl q ↦ absurd (ground (arith, ap is_finished q, e, n)) | inr k ↦ k ])
  | inr e ↦
      subst (Has s) (sym (reap-skip t ts e))
        (elim h [ inl q ↦ inl q | inr k ↦ inr (Has-reap s ts k n) ])
]

Has-append : (s : Session) (ss ts : List Session) → Has s ss → Has s (ss ++ ts)
Has-append s [] ts h = absurd h
Has-append s (t ∷ ss) ts (inl q) = inl q
Has-append s (t ∷ ss) ts (inr k) = inr (Has-append s ss ts k)

-- What `accept` makes of the list.
accept_sessions :
    (s : Srv) (a : Addr) (buf : Bytes) (n : ℕ) {s' : Srv}
    → accept s a buf n ≡ ok s'
    → (s'.sessions ≡ s.sessions)
      ⊎ ((t : Session) × (9 ≤ n)
          × (prepare s.settings session a buf n ≡ ok (true, t))
          × (s'.sessions ≡ s.sessions ++ t ∷ []))
unfolding accept
accept_sessions s a buf n {s'} e = elim (Bool-cases (leb 9 n)) [
  | inl large ↦
      let ((ret, t), p, q) = >>=-eq-ok (prepare s.settings session a buf n) _ (rw large at e) in
      elim (Bool-cases ret) [
        | inl y ↦
            inr (t, ground (arith, large), p ∙ ap (λ (x : Bool). ok (x, t)) y, ground (arith, y, q))
        | inr f ↦ inl (ground (arith, f, q))
      ]
  | inr small ↦ inl (ground (arith, small, e))
]

-- A round of the listener: what it made of the list, before a session was taken off.
round_sessions :
    (w : Loop) (p : Option (Addr × Bytes)) {w' : Loop}
    → round p w ≡ ok w'
    → (w'.server.sessions ≡ reap w.server.sessions)
      ⊎ ((t : Session) × (a : Addr) × (buf : Bytes) × (n : ℕ) × (9 ≤ n)
          × (prepare w.server.settings session a buf n ≡ ok (true, t))
          × (w'.server.sessions ≡ reap (w.server.sessions ++ t ∷ [])))
unfolding round
round_sessions w none {w'} e = inl (ground (arith, e))
round_sessions w (some (a, bytes)) {w'} e =
    let given = take (length w.pkt_buf) bytes in
    let buf = put w.pkt_buf 0 given in
    let (s, p, q) = >>=-eq-ok (accept w.server a buf (length given)) (λ s. ok (reaped buf s)) e in
    let same : w'.server.sessions ≡ reap s.sessions = ground (arith, q) in
    elim (accept_sessions w.server a buf (length given) p) [
      | inl k ↦ inl (same ∙ ap reap k)
      | inr (t, h, k, r) ↦ inr (t, a, buf, length given, h, k, same ∙ ap reap r)
    ]

Has-replace :
    (s x y : Session) (before after : List Session)
    → SameRequest x y
    → Has s (before ++ x ∷ after)
    → (t : Session) × Has t (before ++ y ∷ after) × SameRequest s t
Has-replace s x y [] after v (inl q) = (y, inl refl, subst (λ (z : Session). SameRequest z y) q v)
Has-replace s x y [] after v (inr k) = (s, inr k, record { same_opt = refl; same_client = refl })
Has-replace s x y (b ∷ before) after v (inl q) =
    (s, inl q, record { same_opt = refl; same_client = refl })
Has-replace s x y (b ∷ before) after v (inr k) =
    let (t, h, w) = Has-replace s x y before after v k in (t, inr h, w)

-- In every step of the listener or of a thread, a session that has not finished stays in the list, for
-- the same client and with the same options.
pub unfinished_stays :
    (w w' : Loop) (s : Session)
    → Step w w'
    → Has s w.server.sessions
    → is_finished s ≡ false
    → (t : Session) × Has t w'.server.sessions × SameRequest s t
unfinished_stays w w' s (listen _ _ p e) h n =
    let kept = λ (ss : List Session) (q : w'.server.sessions ≡ reap ss) (k : Has s ss).
      subst (Has s) (sym q) (Has-reap s ss k n) in
    elim (round_sessions w p e) [
      | inl q ↦ (s, kept w.server.sessions q h, record { same_opt = refl; same_client = refl })
      | inr (t, _, _, _, _, _, q) ↦ (
        s,
        kept (w.server.sessions ++ t ∷ []) q (Has-append s w.server.sessions (t ∷ []) h),
        record { same_opt = refl; same_client = refl },
      )
    ]
unfinished_stays w w' s (work _ before after env i l l' sent e r) h n =
    Has-replace s l.session l'.session before after (step-SameRequest env i l r) (subst (Has s) e h)

-- The options of a session are what the parse accepted of a packet of nine bytes at least: a request
-- to read or to write, which names a file.
pub record IsAsked (s : Session) : Type 0 where
  pub buf : Bytes
  pub size : ℕ
  pub enough : 9 ≤ size
  pub parsed : buffer_parse buf size ≡ ok (true, s.opt)
  pub request : IsRequest s.opt

abbrev pub AllAsked : List Session → Type 0
AllAsked [] = Unit {0}
AllAsked (s ∷ ss) = IsAsked s × AllAsked ss

AllAsked-reap : (ss : List Session) → AllAsked ss → AllAsked (reap ss)
AllAsked-reap [] h = h
AllAsked-reap (s ∷ ss) h = elim (Bool-cases (is_finished s)) [
  | inl e ↦ subst AllAsked (sym (reap-here s ss e)) h.1
  | inr e ↦ subst AllAsked (sym (reap-skip s ss e)) (h.0, AllAsked-reap ss h.1)
]

AllAsked-append :
    (ss : List Session) (t : Session) → AllAsked ss → IsAsked t → AllAsked (ss ++ t ∷ [])
AllAsked-append [] t h v = (v, tt)
AllAsked-append (s ∷ ss) t h v = (h.0, AllAsked-append ss t h.1 v)

AllAsked-replace :
    (x y : Session) (before after : List Session)
    → SameRequest x y
    → AllAsked (before ++ x ∷ after)
    → AllAsked (before ++ y ∷ after)
AllAsked-replace x y [] after v h =
    let a = h.0 in
    (
      record {
        buf = a.buf;
        size = a.size;
        enough = a.enough;
        parsed = a.parsed ∙ ap (λ (o : Options). ok (true, o)) (sym v.same_opt);
        request = subst IsRequest (sym v.same_opt) a.request;
      },
      h.1,
    )
AllAsked-replace x y (b ∷ before) after v h = (h.0, AllAsked-replace x y before after v h.1)

prepare-IsAsked :
    (st : Settings) (a : Addr) (buf : Bytes) (n : ℕ) {t : Session}
    → 9 ≤ n
    → prepare st session a buf n ≡ ok (true, t)
    → IsAsked t
unfolding prepare
prepare-IsAsked st a buf n {t} h e =
    let ((ret, o), p, q) = >>=-eq-ok (buffer_parse buf n) _ e in
    let read : buffer_parse buf n ≡ ok (true, t.opt) = p ∙ ground (arith, q) in
    record {
      buf = buf;
      size = n;
      enough = h;
      parsed = read;
      request = buffer_parse-IsRequest buf n read;
    }

Step-AllAsked : (w w' : Loop) → Step w w' → AllAsked w.server.sessions → AllAsked w'.server.sessions
Step-AllAsked w w' (listen _ _ p e) h = elim (round_sessions w p e) [
  | inl q ↦ subst AllAsked (sym q) (AllAsked-reap w.server.sessions h)
  | inr (t, a, buf, n, large, k, q) ↦ subst AllAsked (sym q) (
      AllAsked-reap (w.server.sessions ++ t ∷ [])
        (AllAsked-append w.server.sessions t h (prepare-IsAsked w.server.settings a buf n large k)))
]
Step-AllAsked w w' (work _ before after env i l l' sent e r) h =
    AllAsked-replace l.session l'.session before after (step-SameRequest env i l r)
      (subst AllAsked e h)

-- However the listener and the threads take turns, from an empty list on each session of the server has
-- the options that the parse accepted of some packet, a request to read or to write a file that it
-- names: no step makes a session otherwise, or alters its options.
pub Reach-AllAsked :
    (w w' : Loop) → Reach w w' → w.server.sessions ≡ [] → AllAsked w'.server.sessions
Reach-AllAsked w w' here h = subst AllAsked (sym h) tt
Reach-AllAsked w w' (next {w' = v} r s) h = Step-AllAsked v w' s (Reach-AllAsked w v r h)
