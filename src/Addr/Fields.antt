-- ===== src/Addr/Fields.antt =====
-- source/tftpAddr.cpp: the fields of a socket address are read back as they were set, and do not
-- disturb each other.
use server_fw.Prelude.{ℕ, ◌%◌, ◌^◌, ◌≡◌, refl, arith, [], ◌∷◌, length, length-put}
use server_fw.Prelude.Text.{Bytes}
use server_fw.Addr.{Addr, max_sockaddr_size, family, port, set_family, set_port}

pub record IsAddr (a : Addr) : Type 0 where
  pub size : length a.bytes ≡ max_sockaddr_size

at_bytes :
    (bytes : Bytes) (n new_port new_family : ℕ)
    → length bytes ≡ max_sockaddr_size
    → let a : Addr = record { bytes = bytes; data_size = n } in
      (port (set_port a new_port) ≡ new_port % 2 ^ 16)
      × (family (set_port a new_port) ≡ family a)
      × (port (set_family a new_family) ≡ port a)
      × (family (set_family a new_family) ≡ new_family % 2 ^ 16)
      × IsAddr (set_port (set_family a new_family) new_port)
unfolding port family set_port set_family
at_bytes (a ∷ (b ∷ (c ∷ (d ∷ bytes)))) n p f h = (
  omega arith,
  refl,
  refl,
  omega arith,
  record { size = omega (arith, h, length-put bytes 0 []) },
)
at_bytes (a ∷ (b ∷ (c ∷ []))) n p f h = absurd (omega arith)
at_bytes (a ∷ (b ∷ [])) n p f h = absurd (omega arith)
at_bytes (a ∷ []) n p f h = absurd (omega arith)
at_bytes [] n p f h = absurd (omega arith)

-- A port, cast to 16 bits, is read back, and the family and the size stay. A family of 16 bits is
-- read back, and the port stays.
pub port-set_port :
    (a : Addr) (new_port new_family : ℕ)
    → IsAddr a
    → (port (set_port a new_port) ≡ new_port % 2 ^ 16)
      × (family (set_port a new_port) ≡ family a)
      × (port (set_family a new_family) ≡ port a)
      × (family (set_family a new_family) ≡ new_family % 2 ^ 16)
      × IsAddr (set_port (set_family a new_family) new_port)
unfolding port family set_port set_family
port-set_port a p f v = at_bytes a.bytes a.data_size p f v.size
