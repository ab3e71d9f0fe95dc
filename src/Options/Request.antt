-- ===== src/Options/Request.antt =====
-- The request packet as a client writes it, and what `buffer_parse` reads from it.
pub mod RoundTrip
pub mod Meaning
use server_fw.Prelude.{
  ℕ, zero, suc, ◌+◌, ◌-◌, ◌^◌, ◌<◌, ◌≤◌, ◌≡◌, ◌≢◌, refl, sym, ap, ◌∙◌, subst, arith, Bool, true,
  false, List, [], ◌∷◌, ◌++◌, length, length-append, append_assoc, ltb, leb, ◌==◌, if◌then◌else◌,
  Result, ok, err, ◌>>=◌, >>=-congr, lt→ltb, lt→leb,
}
use server_fw.Prelude.Text.{Bytes, NoZero}
use server_fw.SmBuf.{get_string}
use server_fw.SmBuf.Words.{Fits}
use server_fw.SmBuf.Texts.{get_string-stored}
use server_fw.Options.{Options, apply_option, parse_options, sub_size}

-- Option names and values as they stand in a packet.
abbrev pub Pairs : Type 0
Pairs = List (Bytes × Bytes)

abbrev pub option_bytes : Pairs → Bytes
option_bytes [] = []
option_bytes ((n, v) ∷ r) = n ++ 0 ∷ (v ++ 0 ∷ option_bytes r)

abbrev pub AllNoZero : Pairs → Type 0
AllNoZero [] = Unit {0}
AllNoZero ((n, v) ∷ r) = NoZero n × NoZero v × AllNoZero r

-- The options one after the other.
abbrev pub apply_options : Options → Pairs → Result Options
apply_options o [] = ok o
apply_options o ((n, v) ∷ r) = apply_option o n v >>= λ o'. apply_options o' r

-- A text with its zero at `pos`, read with a bound of `size` on the packet.
pub get_string_at :
    (buf pre str rest : Bytes) (size pos : ℕ)
    → buf ≡ pre ++ (str ++ 0 ∷ rest)
    → pos ≡ length pre
    → Fits buf
    → NoZero str
    → pos + length str < size
    → size ≤ length buf
    → get_string buf pos (sub_size size pos) ≡ ok str
get_string_at buf pre str rest size pos e p f z h b =
    ap (λ (k : ℕ). get_string buf pos k) (omega arith)
    ∙ ap (λ (k : ℕ). get_string buf k (size - pos)) p
    ∙ ap (λ (xs : Bytes). get_string xs (length pre) (size - pos)) e
    ∙ get_string-stored pre str rest (size - pos) (subst Fits e f) z (omega arith)
        (omega (arith, ap length e))

-- One round of the loop.
parse_options_step :
    (fuel : ℕ) (buf : Bytes) (size : ℕ) (o : Options) (pos : ℕ) (n v : Bytes)
    → pos < size
    → get_string buf pos (sub_size size pos) ≡ ok n
    → pos + length n + 1 < size
    → get_string buf (pos + length n + 1) (sub_size size (pos + length n + 1)) ≡ ok v
    → parse_options (suc fuel) buf size o pos ≡ (
        apply_option o n v >>= λ o'.
        parse_options fuel buf size o' (pos + length n + 1 + length v + 1))
unfolding parse_options
parse_options_step fuel buf size o pos n v h e k e' = ground arith

parse_options_end :
    (fuel : ℕ) (buf : Bytes) (size : ℕ) (o : Options) (pos : ℕ)
    → size ≤ pos
    → parse_options (suc fuel) buf size o pos ≡ ok o
unfolding parse_options
parse_options_end fuel buf size o pos h = ground arith

length-pair :
    (n v rest : Bytes) → length (n ++ 0 ∷ (v ++ 0 ∷ rest)) ≡ length n + length v + length rest + 2
length-pair n v rest =
    omega (arith, length-append n (0 ∷ (v ++ 0 ∷ rest)), length-append v (0 ∷ rest))

regroup :
    (pre n v tail rest : Bytes)
    → pre ++ ((n ++ 0 ∷ (v ++ 0 ∷ tail)) ++ rest)
      ≡ (pre ++ (n ++ 0 ∷ (v ++ 0 ∷ []))) ++ (tail ++ rest)
regroup pre n v tail rest = simp append_assoc

-- The loop over well-formed options applies them in order.
pub parse_options-option_bytes :
    (opts : Pairs) (fuel : ℕ) (buf : Bytes) (size : ℕ) (pre rest : Bytes) (o : Options) (pos : ℕ)
    → buf ≡ pre ++ (option_bytes opts ++ rest)
    → size ≡ length pre + length (option_bytes opts)
    → pos ≡ length pre
    → Fits buf
    → AllNoZero opts
    → length opts < fuel
    → parse_options fuel buf size o pos ≡ apply_options o opts
parse_options-option_bytes opts zero buf size pre rest o pos e s p f z h = absurd (omega arith)
parse_options-option_bytes [] (suc fuel) buf size pre rest o pos e s p f z h =
    parse_options_end fuel buf size o pos (omega arith)
parse_options-option_bytes ((n, v) ∷ r) (suc fuel) buf size pre rest o pos e s p f z h =
    parse_options_step fuel buf size o pos n v (omega (arith, pair_size)) name_read
      (omega (arith, pair_size)) value_read
    ∙ >>=-congr (apply_option o n v) _ _ λ o'.
      parse_options-option_bytes r fuel buf size (pre ++ (n ++ 0 ∷ (v ++ 0 ∷ []))) rest o' _
        (e ∙ regroup pre n v (option_bytes r) rest) (omega (arith, pair_size, pre_size))
        (omega (arith, pre_size)) f z.2 (omega arith)
  where
    pair_size :
        length (option_bytes ((n, v) ∷ r)) ≡ length n + length v + length (option_bytes r) + 2
    pair_size = length-pair n v (option_bytes r)

    pre_size : length (pre ++ (n ++ 0 ∷ (v ++ 0 ∷ []))) ≡ length pre + length n + length v + 2
    pre_size = omega (arith, length-append pre (n ++ 0 ∷ (v ++ 0 ∷ [])), length-pair n v [])

    whole : length buf ≡ length pre + length (option_bytes ((n, v) ∷ r)) + length rest
    whole = omega (
      arith,
      ap length e,
      length-append pre (option_bytes ((n, v) ∷ r) ++ rest),
      length-append (option_bytes ((n, v) ∷ r)) rest,
    )

    name_read : get_string buf pos (sub_size size pos) ≡ ok n
    name_read =
        get_string_at buf pre n (v ++ 0 ∷ (option_bytes r ++ rest)) size pos (e ∙ simp append_assoc)
          p f z.0 (omega (arith, pair_size)) (omega (arith, whole))

    value_read : get_string buf (pos + length n + 1) (sub_size size (pos + length n + 1)) ≡ ok v
    value_read =
        get_string_at buf (pre ++ (n ++ 0 ∷ [])) v (option_bytes r ++ rest) size
          (pos + length n + 1) (e ∙ simp append_assoc)
          (omega (arith, length-append pre (n ++ 0 ∷ []), length-append n (0 ∷ []))) f z.1
          (omega (arith, pair_size)) (omega (arith, whole))
