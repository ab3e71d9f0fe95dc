-- ===== src/Session/Run/Steps.antt =====
-- source/tftpSession.cpp: rounds of `run` one after the other.
use server_fw.Prelude.{◌≡◌, refl, sym, ap, ◌∙◌, List, [], ◌∷◌, ◌++◌, ok, err, ◌>>=◌, append_assoc}
use server_fw.Prelude.Text.{Bytes}
use server_fw.Common.{State}
use server_fw.Session.Run.{Env, Input, Loop, Round, step, step_in, rounds}

-- A run with packets in front of its own.
abbrev pub prefixed : List Bytes → Round → Round
prefixed q m = m >>= λ r. ok (r.0, q ++ r.1)

pub prefixed-ok :
    (q p : List Bytes) (m : Round) {l : Loop} → m ≡ ok (l, p) → prefixed q m ≡ ok (l, q ++ p)
prefixed-ok q p m e = rw e refl

pub prefixed-prefixed :
    (p q : List Bytes) (m : Round) → prefixed p (prefixed q m) ≡ prefixed (p ++ q) m
prefixed-prefixed p q (ok r) = ap (λ (xs : List Bytes). ok (r.0, xs)) (sym (append_assoc p q r.1))
prefixed-prefixed p q (err x) = refl

pub in_state :
    (env : Env) (i : Input) (l : Loop) (st : State)
    → l.session.stat ≡ st
    → step env i l ≡ step_in st env i l
in_state env i l st e = rw e refl

pub rounds_none : (env : Env) (l : Loop) → rounds env [] l ≡ ok (l, [])
unfolding rounds
rounds_none env l = refl

pub rounds_one :
    (env : Env) (i : Input) (rest : List Input) (l : Loop) {l' : Loop} {p : List Bytes}
    → step env i l ≡ ok (l', p)
    → rounds env (i ∷ rest) l ≡ prefixed p (rounds env rest l')
unfolding rounds
rounds_one env i rest l e = rw e refl

pub rounds_two :
    (env : Env) (i k : Input) (rest : List Input) (l : Loop) {l1 l2 : Loop} {p q : List Bytes}
    → step env i l ≡ ok (l1, p)
    → step env k l1 ≡ ok (l2, q)
    → rounds env (i ∷ k ∷ rest) l ≡ prefixed (p ++ q) (rounds env rest l2)
unfolding rounds
rounds_two env i k rest l {l1} {l2} {p} {q} e f =
    rw e (rw f (prefixed-prefixed p q (rounds env rest l2)))

pub prefixed-nil : (m : Round) → prefixed [] m ≡ m
prefixed-nil (ok r) = refl
prefixed-nil (err x) = refl

-- The rounds for later inputs, after a run.
abbrev follow : Env → List Input → Round → Round
follow env later r = r >>= λ x. prefixed x.1 (rounds env later x.0)

follow-prefixed :
    (env : Env) (later : List Input) (p : List Bytes) (m : Round)
    → prefixed p (follow env later m) ≡ follow env later (prefixed p m)
follow-prefixed env later p (ok r) = prefixed-prefixed p r.1 (rounds env later r.0)
follow-prefixed env later p (err x) = refl

follow-step :
    (env : Env) (is later : List Input) (m : Round)
    → ((l : Loop) → rounds env (is ++ later) l ≡ follow env later (rounds env is l))
    → (m >>= λ x. prefixed x.1 (rounds env (is ++ later) x.0))
      ≡ follow env later (m >>= λ x. prefixed x.1 (rounds env is x.0))
follow-step env is later (ok r) ih =
    ap (prefixed r.1) (ih r.0) ∙ follow-prefixed env later r.1 (rounds env is r.0)
follow-step env is later (err x) ih = refl

rounds-follow :
    (env : Env) (is later : List Input) (l : Loop)
    → rounds env (is ++ later) l ≡ follow env later (rounds env is l)
unfolding rounds
rounds-follow env [] later l = sym (prefixed-nil (rounds env later l))
rounds-follow env (i ∷ is) later l =
    follow-step env is later (step env i l) (rounds-follow env is later)

-- A run goes on where the run before it ended.
pub rounds-append :
    (env : Env) (is later : List Input) (l l' : Loop) (p : List Bytes)
    → rounds env is l ≡ ok (l', p)
    → rounds env (is ++ later) l ≡ prefixed p (rounds env later l')
rounds-append env is later l l' p e = rounds-follow env is later l ∙ ap (follow env later) e

-- A session that has finished takes no part in the rounds that follow.
pub finish_stays :
    (env : Env) (is : List Input) (l : Loop)
    → l.session.stat ≡ State.finish
    → rounds env is l ≡ ok (l, [])
unfolding rounds step_in
finish_stays env [] l h = refl
finish_stays env (i ∷ is) l h =
    rounds_one env i is l (in_state env i l State.finish h)
    ∙ prefixed-ok [] [] _ (finish_stays env is l h)
