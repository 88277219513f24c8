-- ===== src/Base/Copy.antt =====
-- Copying into lists, as `memcpy` does into arrays, and what is read behind it.
use Prim.Native.Nat.{ℕ, zero, suc, ◌+◌, ◌≤◌}
use mathlib.Core.Path.{◌≡◌, refl, sym, ap, ap₂, ◌∙◌}
use mathlib.Core.List.{List, [], ◌∷◌, ◌++◌}
use native.Mathlib.Omega.{arith}
use cubesat_space_protocol.Base.Lists.{length, set, length-set, get_or, take, drop}

suc_add : (i k : ℕ) → suc i + k ≡ suc (i + k)
suc_add i k = omega arith

module _ {ℓ} {A : Type ℓ} where
  -- `memcpy` to index `i`; what would go past the end is lost.
  abbrev pub blit : List A → ℕ → List A → List A
  blit xs i [] = xs
  blit xs i (v ∷ vs) = blit (set xs i v) (suc i) vs

  pub length-blit : (xs : List A) (i : ℕ) (vs : List A) → length (blit xs i vs) ≡ length xs
  length-blit xs i [] = refl
  length-blit xs i (v ∷ vs) = length-blit (set xs i v) (suc i) vs ∙ length-set xs i v

  take-set : (xs : List A) (n i : ℕ) (v : A) → n ≤ i → take n (set xs i v) ≡ take n xs
  take-set [] n i v h = refl
  take-set (x ∷ xs) zero i v h = refl
  take-set (x ∷ xs) (suc n) zero v h = elim h [ ]
  take-set (x ∷ xs) (suc n) (suc i) v h = ap (◌∷◌ x) (take-set xs n i v (omega arith))

  -- What lies before the copy is kept.
  pub take-blit : (xs : List A) (n i : ℕ) (vs : List A) → n ≤ i → take n (blit xs i vs) ≡ take n xs
  take-blit xs n i [] h = refl
  take-blit xs n i (v ∷ vs) h =
      take-blit (set xs i v) n (suc i) vs (omega arith) ∙ take-set xs n i v h

  blit-suc :
      (x : A) (xs : List A) (i : ℕ) (vs : List A) → blit (x ∷ xs) (suc i) vs ≡ x ∷ blit xs i vs
  blit-suc x xs i [] = refl
  blit-suc x xs i (v ∷ vs) = blit-suc x (set xs i v) (suc i) vs

  -- What was copied is there.
  pub take-drop-blit :
      (xs : List A) (i : ℕ) (vs : List A)
      → i + length vs ≤ length xs
      → take (length vs) (drop i (blit xs i vs)) ≡ vs
  take-drop-blit [] zero [] h = refl
  take-drop-blit [] zero (v ∷ vs) h = absurd (omega arith)
  take-drop-blit [] (suc i) vs h = absurd (omega arith)
  take-drop-blit (x ∷ xs) zero [] h = refl
  take-drop-blit (x ∷ xs) zero (v ∷ vs) h =
      ap (take (suc (length vs))) (blit-suc v xs 0 vs)
      ∙ ap (◌∷◌ v) (take-drop-blit xs 0 vs (omega arith))
  take-drop-blit (x ∷ xs) (suc i) vs h =
      ap (λ l. take (length vs) (drop (suc i) l)) (blit-suc x xs i vs)
      ∙ take-drop-blit xs i vs (omega arith)

  drop-set : (xs : List A) (n j : ℕ) (v : A) → drop n (set xs (n + j) v) ≡ set (drop n xs) j v
  drop-set xs zero j v = ap (λ i. set xs i v) (omega arith)
  drop-set [] (suc n) j v = refl
  drop-set (x ∷ xs) (suc n) j v =
      ap (λ i. drop (suc n) (set (x ∷ xs) i v)) (suc_add n j) ∙ drop-set xs n j v

  pub drop-blit :
      (xs : List A) (n j : ℕ) (vs : List A) → drop n (blit xs (n + j) vs) ≡ blit (drop n xs) j vs
  drop-blit xs n j [] = refl
  drop-blit xs n j (v ∷ vs) =
      let behind : suc (n + j) ≡ n + suc j = omega arith in
      ap (λ i. drop n (blit (set xs (n + j) v) i vs)) behind
      ∙ drop-blit (set xs (n + j) v) n (suc j) vs
      ∙ ap (λ l. blit l (suc j) vs) (drop-set xs n j v)

  -- Lists of one length with the same items are equal.
  pub get_or_ext :
      (d : A) (xs ys : List A)
      → length xs ≡ length ys
      → ((i : ℕ) → get_or xs i d ≡ get_or ys i d)
      → xs ≡ ys
  get_or_ext d [] [] e h = refl
  get_or_ext d [] (y ∷ ys) e h = absurd (omega arith)
  get_or_ext d (x ∷ xs) [] e h = absurd (omega arith)
  get_or_ext d (x ∷ xs) (y ∷ ys) e h =
      ap₂ ◌∷◌ (h 0) (get_or_ext d xs ys (omega arith) (λ i. h (suc i)))

module _ {ℓ} {A : Type ℓ} where
  pub take-take : (a n : ℕ) (xs : List A) → a ≤ n → take a (take n xs) ≡ take a xs
  take-take zero n xs h = refl
  take-take (suc a) zero xs h = elim h [ ]
  take-take (suc a) (suc n) [] h = refl
  take-take (suc a) (suc n) (x ∷ xs) h = ap (◌∷◌ x) (take-take a n xs (omega arith))

  take-nil : (k : ℕ) → take {A = A} k [] ≡ []
  take-nil zero = refl
  take-nil (suc k) = refl

  pub drop-take : (i k : ℕ) (xs : List A) → drop i (take (i + k) xs) ≡ take k (drop i xs)
  drop-take zero k xs = ap (λ m. take m xs) (omega arith)
  drop-take (suc i) k [] = ap (λ m. drop (suc i) (take m [])) (suc_add i k) ∙ sym (take-nil k)
  drop-take (suc i) k (x ∷ xs) =
      ap (λ m. drop (suc i) (take m (x ∷ xs))) (suc_add i k) ∙ drop-take i k xs

  pub get_or-drop : (i j : ℕ) (xs : List A) (d : A) → get_or (drop i xs) j d ≡ get_or xs (i + j) d
  get_or-drop zero j xs d = ap (λ m. get_or xs m d) (omega arith)
  get_or-drop (suc i) j [] d = refl
  get_or-drop (suc i) j (x ∷ xs) d =
      get_or-drop i j xs d ∙ ap (λ m. get_or (x ∷ xs) m d) (sym (suc_add i j))

  -- Runs that agree up to `n` agree up to any index before it.
  pub take_shorter :
      (a n : ℕ) (xs ys : List A) → a ≤ n → take n xs ≡ take n ys → take a xs ≡ take a ys
  take_shorter a n xs ys h e = sym (take-take a n xs h) ∙ ap (take a) e ∙ take-take a n ys h

module _ {ℓ} {A : Type ℓ} where
  pub take_add : (k n : ℕ) (xs : List A) → take (k + n) xs ≡ take k xs ++ take n (drop k xs)
  take_add zero n xs = ap (λ m. take m xs) (omega arith)
  take_add (suc k) n [] = ap (λ m. take m []) (suc_add k n) ∙ sym (take-nil n)
  take_add (suc k) n (x ∷ xs) =
      ap (λ m. take m (x ∷ xs)) (suc_add k n) ∙ ap (◌∷◌ x) (take_add k n xs)

  -- A copy behind what is there makes both stand one after the other.
  pub take_add-blit :
      (k n : ℕ) (xs vs : List A)
      → length vs ≡ n
      → k + n ≤ length xs
      → take (k + n) (blit xs k vs) ≡ take k xs ++ vs
  take_add-blit k n xs vs e h =
      take_add k n (blit xs k vs)
      ∙ ap₂ ◌++◌ (take-blit xs k k vs (omega arith)) (
          ap (λ m. take m (drop k (blit xs k vs))) (sym e)
          ∙ take-drop-blit xs k vs (omega (arith, e, h)))

module _ {ℓ} {A : Type ℓ} where
  pub take-drop-take :
      (k n m : ℕ) (xs : List A) → k + n ≤ m → take n (drop k (take m xs)) ≡ take n (drop k xs)
  take-drop-take zero n m xs h = take-take n m xs (omega arith)
  take-drop-take (suc k) n zero xs h = absurd (omega arith)
  take-drop-take (suc k) n (suc m) [] h = refl
  take-drop-take (suc k) n (suc m) (x ∷ xs) h = take-drop-take k n m xs (omega arith)
