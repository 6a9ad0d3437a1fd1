-- ===== src/Base/Lists.antt =====
-- Lists measured and indexed by native numbers, under the library's names; slices and copies.
use Prim.Native.Nat.{ℕ, zero, suc, ◌+◌, ◌-◌, ◌≤◌, min}
use mathlib.Core.Path.{◌≡◌, refl, ap, sym, ◌∙◌}
use mathlib.Core.List.{List, [], ◌∷◌, ◌++◌}
use native.Mathlib.Nat.{zero-add, suc-add}
use native.Mathlib.Omega.{arith}

module _ {ℓ} {A : Type ℓ} where
  abbrev pub length : List A → ℕ
  length [] = 0
  length (x ∷ xs) = suc (length xs)

  abbrev pub get_or : List A → ℕ → A → A
  get_or [] i d = d
  get_or (x ∷ xs) zero d = x
  get_or (x ∷ xs) (suc i) d = get_or xs i d

  abbrev pub take : ℕ → List A → List A
  take zero xs = []
  take (suc n) [] = []
  take (suc n) (x ∷ xs) = x ∷ take n xs

  abbrev pub drop : ℕ → List A → List A
  drop zero xs = xs
  drop (suc n) [] = []
  drop (suc n) (x ∷ xs) = drop n xs

  abbrev pub replicate : ℕ → A → List A
  replicate zero a = []
  replicate (suc n) a = a ∷ replicate n a

  pub length-append : (xs ys : List A) → length (xs ++ ys) ≡ length xs + length ys
  length-append [] ys = omega arith
  length-append (x ∷ xs) ys = omega (arith, length-append xs ys)

  pub length-take : (n : ℕ) (xs : List A) → length (take n xs) ≡ min n (length xs)
  length-take zero xs = omega arith
  length-take (suc n) [] = omega arith
  length-take (suc n) (x ∷ xs) = omega (arith, length-take n xs)

  pub length-drop : (n : ℕ) (xs : List A) → length (drop n xs) ≡ length xs - n
  length-drop zero xs = omega arith
  length-drop (suc n) [] = omega arith
  length-drop (suc n) (x ∷ xs) = omega (arith, length-drop n xs)

  pub length-replicate : (n : ℕ) (a : A) → length (replicate n a) ≡ n
  length-replicate zero a = refl
  length-replicate (suc n) a = ap suc (length-replicate n a)

  pub take-append-drop : (n : ℕ) (xs : List A) → take n xs ++ drop n xs ≡ xs
  take-append-drop zero xs = refl
  take-append-drop (suc n) [] = refl
  take-append-drop (suc n) (x ∷ xs) = rw (take-append-drop n xs)

  abbrev pub All {κ} : (A → Type κ) → List A → Type κ
  All P [] = Unit {κ}
  All P (x ∷ xs) = P x × All P xs

  -- `buf[i..i + src.len()].copy_from_slice(src)`, where that range lies in `buf`.
  unfoldable pub copy_at : ℕ → List A → List A → List A
  copy_at zero [] buf = buf
  copy_at zero (s ∷ src) [] = []
  copy_at zero (s ∷ src) (b ∷ buf) = s ∷ copy_at zero src buf
  copy_at (suc i) src [] = []
  copy_at (suc i) src (b ∷ buf) = b ∷ copy_at i src buf

  pub length-copy_at : (i : ℕ) (src buf : List A) → length (copy_at i src buf) ≡ length buf
  unfolding copy_at
  length-copy_at zero [] buf = refl
  length-copy_at zero (s ∷ src) [] = refl
  length-copy_at zero (s ∷ src) (b ∷ buf) = ap suc (length-copy_at zero src buf)
  length-copy_at (suc i) src [] = refl
  length-copy_at (suc i) src (b ∷ buf) = ap suc (length-copy_at i src buf)

  pub copy_at_all : (src buf : List A) → length src ≡ length buf → copy_at 0 src buf ≡ src
  unfolding copy_at
  copy_at_all [] [] h = refl
  copy_at_all [] (b ∷ buf) h = absurd (omega arith)
  copy_at_all (s ∷ src) [] h = absurd (omega arith)
  copy_at_all (s ∷ src) (b ∷ buf) h = ap (◌∷◌ s) (copy_at_all src buf (omega arith))

  pub take-copy_at_zero :
      (src buf : List A) → length src ≤ length buf → take (length src) (copy_at 0 src buf) ≡ src
  unfolding copy_at
  take-copy_at_zero [] buf h = refl
  take-copy_at_zero (s ∷ src) [] h = absurd (omega arith)
  take-copy_at_zero (s ∷ src) (b ∷ buf) h = ap (◌∷◌ s) (take-copy_at_zero src buf (omega arith))

  -- A copy at the end of a prefix makes the prefix longer.
  pub take-copy_at :
      (i : ℕ) (src buf : List A)
      → i + length src ≤ length buf
      → take (i + length src) (copy_at i src buf) ≡ take i buf ++ src
  unfolding copy_at
  take-copy_at zero src buf h = rw zero-add (take-copy_at_zero src buf (omega arith))
  take-copy_at (suc i) src [] h = absurd (omega arith)
  take-copy_at (suc i) src (b ∷ buf) h =
      rw suc-add (ap (◌∷◌ b) (take-copy_at i src buf (omega arith)))

  -- A copy behind a prefix leaves it as it is.
  pub take-copy_at_behind :
      (k i : ℕ) (src buf : List A) → k ≤ i → take k (copy_at i src buf) ≡ take k buf
  unfolding copy_at
  take-copy_at_behind zero i src buf h = refl
  take-copy_at_behind (suc k) zero src buf h = absurd (omega arith)
  take-copy_at_behind (suc k) (suc i) src [] h = refl
  take-copy_at_behind (suc k) (suc i) src (b ∷ buf) h =
      ap (◌∷◌ b) (take-copy_at_behind k i src buf (omega arith))

  pub take_all : (n : ℕ) (xs : List A) → length xs ≤ n → take n xs ≡ xs
  take_all zero [] h = refl
  take_all zero (x ∷ xs) h = absurd (omega arith)
  take_all (suc n) [] h = refl
  take_all (suc n) (x ∷ xs) h = ap (◌∷◌ x) (take_all n xs (omega arith))

  -- A copy to the very end of the buffer.
  pub copy_at_end :
      (i : ℕ) (src buf : List A)
      → i + length src ≡ length buf
      → copy_at i src buf ≡ take i buf ++ src
  copy_at_end i src buf e =
      sym (take_all (i + length src) (copy_at i src buf) (omega (arith, length-copy_at i src buf)))
      ∙ take-copy_at i src buf (omega arith)

  pub drop_all : (n : ℕ) (xs : List A) → length xs ≤ n → drop n xs ≡ []
  drop_all zero [] h = refl
  drop_all zero (x ∷ xs) h = absurd (omega arith)
  drop_all (suc n) [] h = refl
  drop_all (suc n) (x ∷ xs) h = drop_all n xs (omega arith)

  pub take-append : (xs ys : List A) → take (length xs) (xs ++ ys) ≡ xs
  take-append [] ys = refl
  take-append (x ∷ xs) ys = ap (◌∷◌ x) (take-append xs ys)

  pub drop-append : (xs ys : List A) → drop (length xs) (xs ++ ys) ≡ ys
  drop-append [] ys = refl
  drop-append (x ∷ xs) ys = drop-append xs ys

  take-nil : (n : ℕ) → take n [] ≡ []
  take-nil zero = refl
  take-nil (suc n) = refl

  drop-nil : (n : ℕ) → drop n [] ≡ []
  drop-nil zero = refl
  drop-nil (suc n) = refl

  pub take-append_take-drop :
      (m n : ℕ) (xs : List A) → take m xs ++ take n (drop m xs) ≡ take (m + n) xs
  take-append_take-drop zero n xs = rw zero-add
  take-append_take-drop (suc m) n [] = rw (suc-add, take-nil n)
  take-append_take-drop (suc m) n (x ∷ xs) = rw suc-add (ap (◌∷◌ x) (take-append_take-drop m n xs))

  pub drop-drop : (m n : ℕ) (xs : List A) → drop n (drop m xs) ≡ drop (m + n) xs
  drop-drop zero n xs = rw zero-add
  drop-drop (suc m) n [] = rw (suc-add, drop-nil n)
  drop-drop (suc m) n (x ∷ xs) = rw suc-add (drop-drop m n xs)
