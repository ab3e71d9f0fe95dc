-- ===== src/Session/Packets/Told.antt =====
-- Errors that a session notes, whose texts fit into a packet.
use server_fw.Prelude.{
  ℕ, ◌<◌, ◌≡◌, ◌⊎◌, inl, inr, refl, sym, subst, arith, true, Bool-cases, length, some, none,
}
use server_fw.Prelude.Text.{Bytes, NoZero, codes}
use server_fw.DataMgr.{Report}
use server_fw.Session.{Session, set_error_if_first, reported, was_error}

-- The text of an error that fits into a packet.
pub record IsTold (s : Session) : Type 0 where
  pub text : NoZero s.error_message
  pub brief : length s.error_message < 100

pub IsTold-set :
    (s : Session) (code : ℕ) (why : Bytes)
    → IsTold s
    → NoZero why
    → length why < 100
    → IsTold (set_error_if_first s code why)
unfolding set_error_if_first
IsTold-set s code why t z h = elim (Bool-cases (was_error s)) [
  | inl c ↦ rw c t
  | inr c ↦ rw c (record { text = z; brief = h })
]

pub IsTold-reported :
    (s : Session) (report : Report)
    → IsTold s
    → (report ≡ none) ⊎ (report ≡ some (0, codes "Server read stream not opened"))
    → IsTold (reported s report)
IsTold-reported s report t (inl e) = subst (λ (r : Report). IsTold (reported s r)) (sym e) t
IsTold-reported s report t (inr e) =
    subst (λ (r : Report). IsTold (reported s r)) (sym e)
      (IsTold-set s 0 _ t (omega arith) (omega arith))

pub same_reported :
    (s : Session) (report : Report)
    → ((reported s report).stat ≡ s.stat) × ((reported s report).opt ≡ s.opt)
unfolding set_error_if_first
same_reported s none = (refl, refl)
same_reported s (some (code, why)) = ground arith

pub error_same :
    (s : Session) (code : ℕ) (why : Bytes)
    → ((set_error_if_first s code why).stat ≡ s.stat)
      × ((set_error_if_first s code why).opt ≡ s.opt)
      × ((set_error_if_first s code why).file_man ≡ s.file_man)
unfolding set_error_if_first
error_same s code why = ground arith

pub noted :
    (s : Session) (why : Bytes) → 0 < length why → was_error (set_error_if_first s 0 why) ≡ true
unfolding set_error_if_first was_error
noted s why h = ground arith
