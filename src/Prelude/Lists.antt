-- ===== src/Prelude/Lists.antt =====
-- Lists measured by native numbers, and byte blocks read from and written into a list.
use Prim.Native.Nat.{ℕ, zero, suc, ◌+◌, ◌-◌, ◌≤◌, ◌<◌, min}
use Prim.Native.Nat.add
use mathlib.Core.Path.{◌≡◌, refl, ap}
use mathlib.Core.Logic.{◌⊎◌, inr}
use mathlib.Core.List.{List, [], ◌∷◌, ◌++◌, reverse, reverse-cons}
use mathlib.Core.Option.{Option, none, some}
use native.Mathlib.Omega.{arith}

module _ {ℓ} {A : Type ℓ} where
  abbrev pub length : List A → ℕ
  length [] = 0
  length (x ∷ xs) = suc (length xs)

  abbrev pub get_elem? : List A → ℕ → Option A
  get_elem? [] i = none
  get_elem? (x ∷ xs) zero = some x
  get_elem? (x ∷ xs) (suc i) = get_elem? xs i

  abbrev pub take : ℕ → List A → List A
  take zero xs = []
  take (suc n) [] = []
  take (suc n) (x ∷ xs) = x ∷ take n xs

  abbrev pub drop : ℕ → List A → List A
  drop zero xs = xs
  drop (suc n) [] = []
  drop (suc n) (x ∷ xs) = drop n xs

  abbrev pub replicate : ℕ → A → List A
  replicate zero a = []
  replicate (suc n) a = a ∷ replicate n a

  -- The `n` items from `offset` on.
  abbrev pub slice : List A → ℕ → ℕ → List A
  slice xs offset n = take n (drop offset xs)

  -- Overwrites from `offset` on; what would fall behind the end is dropped.
  abbrev pub put : List A → ℕ → List A → List A
  put [] offset ys = []
  put (x ∷ xs) zero [] = x ∷ xs
  put (x ∷ xs) zero (y ∷ ys) = y ∷ put xs zero ys
  put (x ∷ xs) (suc offset) ys = x ∷ put xs offset ys

  pub length-append : (xs ys : List A) → length (xs ++ ys) ≡ length xs + length ys
  length-append [] ys = omega arith
  length-append (x ∷ xs) ys = omega (arith, length-append xs ys)

  pub length-take : (n : ℕ) (xs : List A) → length (take n xs) ≡ min n (length xs)
  length-take zero xs = omega arith
  length-take (suc n) [] = omega arith
  length-take (suc n) (x ∷ xs) = omega (arith, length-take n xs)

  pub length-drop : (n : ℕ) (xs : List A) → length (drop n xs) ≡ length xs - n
  length-drop zero xs = omega arith
  length-drop (suc n) [] = omega arith
  length-drop (suc n) (x ∷ xs) = omega (arith, length-drop n xs)

  pub length-replicate : (n : ℕ) (a : A) → length (replicate n a) ≡ n
  length-replicate zero a = refl
  length-replicate (suc n) a = ap suc (length-replicate n a)

  pub length-reverse : (xs : List A) → length (reverse xs) ≡ length xs
  length-reverse [] = refl
  length-reverse (x ∷ xs) =
      omega (
        arith,
        ap length (reverse-cons x xs),
        length-append (reverse xs) (x ∷ []),
        length-reverse xs,
      )

module _ {ℓ} {A : Type ℓ} where
  pub drop-drop : (n m : ℕ) (xs : List A) → drop (n + m) xs ≡ drop m (drop n xs)
  drop-drop zero m xs = rw add.zero
  drop-drop (suc n) zero [] = rw add.suc
  drop-drop (suc n) (suc m) [] = rw add.suc
  drop-drop (suc n) m (x ∷ xs) = rw add.suc (drop-drop n m xs)

  pub length-put : (xs : List A) (offset : ℕ) (ys : List A) → length (put xs offset ys) ≡ length xs
  length-put [] offset ys = refl
  length-put (x ∷ xs) zero [] = refl
  length-put (x ∷ xs) zero (y ∷ ys) = ap suc (length-put xs zero ys)
  length-put (x ∷ xs) (suc offset) ys = ap suc (length-put xs offset ys)

  pub take-put :
      (xs : List A) (offset : ℕ) (ys : List A)
      → offset + length ys ≤ length xs
      → take (offset + length ys) (put xs offset ys) ≡ take offset xs ++ ys
  take-put [] zero [] h = refl
  take-put [] zero (y ∷ ys) h = absurd (omega arith)
  take-put [] (suc offset) ys h = absurd (omega arith)
  take-put (x ∷ xs) zero [] h = refl
  take-put (x ∷ xs) zero (y ∷ ys) h =
      rw add.zero (ap (◌∷◌ y) (rw add.zero at (take-put xs zero ys (omega arith))))
  take-put (x ∷ xs) (suc offset) ys h =
      rw add.suc (ap (◌∷◌ x) (take-put xs offset ys (omega arith)))

  pub slice-zero : (xs : List A) → take (length xs) xs ≡ xs
  slice-zero [] = refl
  slice-zero (x ∷ xs) = ap (◌∷◌ x) (slice-zero xs)

  pub take-append : (xs ys : List A) → take (length xs) (xs ++ ys) ≡ xs
  take-append [] ys = refl
  take-append (x ∷ xs) ys = ap (◌∷◌ x) (take-append xs ys)

  pub drop-append : (xs ys : List A) → drop (length xs) (xs ++ ys) ≡ ys
  drop-append [] ys = refl
  drop-append (x ∷ xs) ys = drop-append xs ys

  pub slice-put :
      (xs : List A) (offset : ℕ) (ys : List A)
      → offset + length ys ≤ length xs
      → slice (put xs offset ys) offset (length ys) ≡ ys
  slice-put [] zero [] h = refl
  slice-put [] zero (y ∷ ys) h = absurd (omega arith)
  slice-put [] (suc offset) ys h = absurd (omega arith)
  slice-put (x ∷ xs) zero [] h = refl
  slice-put (x ∷ xs) zero (y ∷ ys) h = ap (◌∷◌ y) (slice-put xs zero ys (omega arith))
  slice-put (x ∷ xs) (suc offset) ys h = slice-put xs offset ys (omega arith)

  pub drop-put :
      (xs : List A) (offset : ℕ) (ys : List A)
      → offset + length ys ≤ length xs
      → drop offset (put xs offset ys) ≡ ys ++ drop (offset + length ys) xs
  drop-put [] zero [] h = refl
  drop-put [] zero (y ∷ ys) h = absurd (omega arith)
  drop-put [] (suc offset) ys h = absurd (omega arith)
  drop-put (x ∷ xs) zero [] h = refl
  drop-put (x ∷ xs) zero (y ∷ ys) h =
      rw add.zero (ap (◌∷◌ y) (rw add.zero at (drop-put xs zero ys (omega arith))))
  drop-put (x ∷ xs) (suc offset) ys h = rw add.suc (drop-put xs offset ys (omega arith))

  -- A write leaves every place outside its range as it was.
  pub get_elem?-put :
      (xs : List A) (offset : ℕ) (ys : List A) (i : ℕ)
      → (i < offset) ⊎ (offset + length ys ≤ i)
      → get_elem? (put xs offset ys) i ≡ get_elem? xs i
  get_elem?-put [] offset ys i h = refl
  get_elem?-put (x ∷ xs) zero [] i h = refl
  get_elem?-put (x ∷ xs) zero (y ∷ ys) zero h = absurd (omega arith)
  get_elem?-put (x ∷ xs) zero (y ∷ ys) (suc i) h = get_elem?-put xs zero ys i (inr (omega arith))
  get_elem?-put (x ∷ xs) (suc offset) ys zero h = refl
  get_elem?-put (x ∷ xs) (suc offset) ys (suc i) h = get_elem?-put xs offset ys i (omega arith)
