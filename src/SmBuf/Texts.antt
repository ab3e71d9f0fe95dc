-- ===== src/SmBuf/Texts.antt =====
-- The text accessors of `SmBuf`.
use server_fw.Prelude.{
  ℕ, zero, suc, ◌+◌, ◌<◌, ◌≤◌, ◌≡◌, refl, ap, ◌∙◌, arith, Bool, true, [], ◌∷◌, ◌++◌, length, slice,
  take, drop, put, drop-drop, length-append, length-put, drop-put, take-append, drop-append, ok,
  append_assoc,
}
use server_fw.Prelude.Text.{Bytes, NoZero, text_eq_iff}
use server_fw.SmBuf.{is_valid, until_zero, stored_text, get_string, set_string, eqv_string}
use server_fw.SmBuf.Words.{Fits, is_valid_of_le}

pub until_zero-append :
    (str rest : Bytes) → until_zero (until_zero str ++ 0 ∷ rest) ≡ until_zero str
until_zero-append [] rest = refl
until_zero-append (c ∷ cs) rest = ground (arith, until_zero-append cs rest)

pub until_zero-NoZero : (str : Bytes) → NoZero str → until_zero str ≡ str
until_zero-NoZero [] h = refl
until_zero-NoZero (c ∷ cs) h = ground (arith, until_zero-NoZero cs h.1)

pub NoZero-until_zero : (str : Bytes) → NoZero (until_zero str)
NoZero-until_zero [] = tt
NoZero-until_zero (c ∷ cs) = ground (arith, NoZero-until_zero cs)

pub set_string_lem :
    (buf : Bytes) (offset : ℕ) (str : Bytes) (z : Bool)
    → Fits buf
    → offset < length buf
    → offset + length (stored_text str z) ≤ length buf
    → set_string buf offset str z
      ≡ ok (put buf offset (stored_text str z), length (stored_text str z))
unfolding set_string
set_string_lem buf offset str z f o h =
    rw (is_valid_of_le buf offset (length (stored_text str z)) f o h)

-- Reading to the end of the buffer, at a text that ends in zero.
get_string_end :
    (buf : Bytes) (offset : ℕ)
    → Fits buf
    → offset < length buf
    → get_string buf offset 0 ≡ ok (until_zero (drop offset buf))
unfolding get_string
get_string_end buf offset f o = ground (arith, is_valid_of_le buf offset 0 f o)

-- A text and the zero behind it, with any rest, up to a bound behind that zero.
pub until_zero-take :
    (str rest : Bytes) (n : ℕ)
    → NoZero str
    → length str < n
    → until_zero (take n (str ++ 0 ∷ rest)) ≡ str
until_zero-take [] rest zero z h = absurd (omega arith)
until_zero-take [] rest (suc n) z h = refl
until_zero-take (c ∷ cs) rest zero z h = absurd (omega arith)
until_zero-take (c ∷ cs) rest (suc n) z h =
    ground (arith, until_zero-take cs rest n z.1 (omega arith))

pub get_string_within :
    (buf : Bytes) (offset n : ℕ)
    → Fits buf
    → 0 < n
    → offset + n ≤ length buf
    → get_string buf offset n ≡ ok (until_zero (slice buf offset n))
unfolding get_string
get_string_within buf offset n f p h = ground (arith, is_valid_of_le buf offset n f)

-- A zero-ended text that stands at `offset` in the first `offset + n` bytes is read whole.
pub get_string-stored :
    (pre str rest : Bytes) (n : ℕ)
    → Fits (pre ++ (str ++ 0 ∷ rest))
    → NoZero str
    → length str < n
    → length pre + n ≤ length (pre ++ (str ++ 0 ∷ rest))
    → get_string (pre ++ (str ++ 0 ∷ rest)) (length pre) n ≡ ok str
get_string-stored pre str rest n f z h b =
    get_string_within _ (length pre) n f (omega arith) b
    ∙ ap ok (
        ap (λ (xs : Bytes). until_zero (take n xs)) (drop-append pre (str ++ 0 ∷ rest))
        ∙ until_zero-take str rest n z h)

module _ (buf : Bytes) (offset : ℕ) (str : Bytes) (f : Fits buf)
    (h : offset + length (until_zero str) + 1 ≤ length buf) where
  ended : Bytes
  ended = until_zero str ++ 0 ∷ []

  stored : Bytes
  unfolding ended
  stored = put buf offset ended

  drop-stored : drop offset stored ≡ until_zero str ++ 0 ∷ drop (offset + length ended) buf
  unfolding stored ended
  drop-stored =
      drop-put buf offset ended (omega (arith, length-append (until_zero str) (0 ∷ [])))
      ∙ append_assoc (until_zero str) (0 ∷ []) _

  eqv_string-stored : eqv_string stored offset (until_zero str) true ≡ true
  unfolding eqv_string stored
  eqv_string-stored = rw (valid, (text_eq_iff _ _).1 body, (text_eq_iff _ _).1 zero_end)
    where
      size : length stored ≡ length buf
      size = length-put buf offset ended

      body : slice stored offset (length (until_zero str)) ≡ until_zero str
      body = ap (take (length (until_zero str))) drop-stored ∙ take-append (until_zero str) _

      zero_end : slice stored (offset + length (until_zero str)) 1 ≡ 0 ∷ []
      zero_end = ap (take 1) (
          drop-drop offset (length (until_zero str)) stored
          ∙ ap (drop (length (until_zero str))) drop-stored
          ∙ drop-append (until_zero str) _)

      valid : is_valid stored offset (length (until_zero str) + 1) ≡ true
      valid =
          is_valid_of_le stored offset _ (omega (arith, size)) (omega (arith, size))
            (omega (arith, size))

  -- A text written with its zero ends the read at that zero: `get_string` gives what stands in
  -- front of the first zero of the text, `eqv_string` confirms it, and the returned size counts
  -- the zero. Needed: the text and one byte more fit behind the offset.
  pub get_string-set_string :
      (out : Bytes × ℕ) × (set_string buf offset str true ≡ ok out)
      × (out.1 ≡ length (until_zero str) + 1)
      × (get_string out.0 offset 0 ≡ ok (until_zero str))
      × (eqv_string out.0 offset (until_zero str) true ≡ true)
  unfolding stored ended
  get_string-set_string = (
    (stored, length ended),
    set_string_lem buf offset str true f (omega arith)
        (omega (arith, length-append (until_zero str) (0 ∷ []))),
    length-append (until_zero str) (0 ∷ []),
    get_string_end stored offset (omega (arith, length-put buf offset ended))
          (omega (arith, length-put buf offset ended))
        ∙ ap ok (ap until_zero drop-stored ∙ until_zero-append str _),
    eqv_string-stored,
  )
