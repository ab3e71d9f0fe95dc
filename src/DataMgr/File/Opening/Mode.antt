-- ===== src/DataMgr/File/Opening/Mode.antt =====
-- source/tftpDataMgrFile.cpp: the mode that `close` gives to a file.
use server_fw.Prelude.{
  ℕ, ◌+◌, ◌*◌, ◌/◌, ◌%◌, ◌^◌, ◌<◌, ◌≡◌, ◌⊎◌, inl, inr, refl, arith, false, ◌==◌, sym, ap, subst,
  ◌∙◌,
}
use server_fw.DataMgr.File.Opening.{bit, flag, curr_perm}

flag_value : (mode k : ℕ) → flag mode k ≡ 2 ^ k * (mode / 2 ^ k % 2)
flag_value mode k = elim (two (mode / 2 ^ k % 2) (omega arith)) [
  | inl z ↦ rw z (omega arith)
  | inr o ↦ rw o (omega arith)
]
  where
    two : (x : ℕ) → x < 2 → (x ≡ 0) ⊎ (x ≡ 1)
    two x h = omega arith

-- The weights of the six bits.
weighed : ℕ → ℕ → ℕ → ℕ → ℕ → ℕ → ℕ
weighed a b c d e f = 256 * a + 128 * b + (32 * c + 16 * d) + (4 * e + 2 * f)

curr_perm-weighed :
    (mode : ℕ)
    → curr_perm mode
      ≡ weighed
          (mode / 2 ^ 8 % 2)
          (mode / 2 ^ 7 % 2)
          (mode / 2 ^ 5 % 2)
          (mode / 2 ^ 4 % 2)
          (mode / 2 ^ 2 % 2)
          (mode / 2 ^ 1 % 2)
unfolding curr_perm weighed
curr_perm-weighed mode = rw (flag_value mode 8) (
    rw (flag_value mode 7) (
      rw (flag_value mode 5)
        (rw (flag_value mode 4) (rw (flag_value mode 2) (rw (flag_value mode 1) refl)))))

module _ (a b c d e f : ℕ) (ha : a < 2) (hb : b < 2) (hc : c < 2) (hd : d < 2) (he : e < 2)
    (hf : f < 2) where
  -- The bits of a weighed sum.
  weighed-bits :
      (weighed a b c d e f / 2 ^ 8 % 2 ≡ a)
      × (weighed a b c d e f / 2 ^ 7 % 2 ≡ b)
      × (weighed a b c d e f / 2 ^ 5 % 2 ≡ c)
      × (weighed a b c d e f / 2 ^ 4 % 2 ≡ d)
      × (weighed a b c d e f / 2 ^ 2 % 2 ≡ e)
      × (weighed a b c d e f / 2 ^ 1 % 2 ≡ f)
      × (weighed a b c d e f / 2 ^ 6 % 2 ≡ 0)
      × (weighed a b c d e f / 2 ^ 3 % 2 ≡ 0)
      × (weighed a b c d e f / 2 ^ 0 % 2 ≡ 0)
      × (weighed a b c d e f < 2 ^ 9)
  unfolding weighed
  weighed-bits = (
    omega arith,
    omega arith,
    omega arith,
    omega arith,
    omega arith,
    omega arith,
    omega arith,
    omega arith,
    omega arith,
    omega arith,
  )

-- The mode of a file that was written keeps the read and write bits of the setting, for the user, the
-- group and the others, and has no other bit.
pub curr_perm-bit :
    (mode : ℕ)
    → (bit (curr_perm mode) 8 ≡ bit mode 8)
      × (bit (curr_perm mode) 7 ≡ bit mode 7)
      × (bit (curr_perm mode) 5 ≡ bit mode 5)
      × (bit (curr_perm mode) 4 ≡ bit mode 4)
      × (bit (curr_perm mode) 2 ≡ bit mode 2)
      × (bit (curr_perm mode) 1 ≡ bit mode 1)
      × (bit (curr_perm mode) 6 ≡ false)
      × (bit (curr_perm mode) 3 ≡ false)
      × (bit (curr_perm mode) 0 ≡ false)
      × (curr_perm mode < 2 ^ 9)
curr_perm-bit mode =
    let (b8, b7, b5, b4, b2, b1, b6, b3, b0, small) =
      weighed-bits (mode / 2 ^ 8 % 2) (mode / 2 ^ 7 % 2) (mode / 2 ^ 5 % 2) (mode / 2 ^ 4 % 2)
        (mode / 2 ^ 2 % 2) (mode / 2 ^ 1 % 2) (omega arith) (omega arith) (omega arith)
        (omega arith) (omega arith) (omega arith) in
    (
      is 8 b8,
      is 7 b7,
      is 5 b5,
      is 4 b4,
      is 2 b2,
      is 1 b1,
      is 6 b6,
      is 3 b3,
      is 0 b0,
      subst (λ (n : ℕ). n < 2 ^ 9) (sym (curr_perm-weighed mode)) small,
    )
  where
    is :
        (k : ℕ) {x : ℕ}
        → weighed
              (mode / 2 ^ 8 % 2)
              (mode / 2 ^ 7 % 2)
              (mode / 2 ^ 5 % 2)
              (mode / 2 ^ 4 % 2)
              (mode / 2 ^ 2 % 2)
              (mode / 2 ^ 1 % 2)
            / 2 ^ k
            % 2
          ≡ x
        → bit (curr_perm mode) k ≡ (x == 1)
    is k e = ap (λ (n : ℕ). n / 2 ^ k % 2 == 1) (curr_perm-weighed mode) ∙ ap (λ (n : ℕ). n == 1) e
