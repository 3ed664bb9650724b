-- ===== src/Base/Sorted.antt =====
-- Lists of numbers that do not fall.
use hive_core_v.Base.{
  ℕ, zero, suc, ◌≤◌, ◌≡◌, refl, List, [], ◌∷◌, ◌++◌, some, All, IsSorted, take, drop, get_elem?,
  arith,
}

module _ {ℓ κ} {A : Type ℓ} (P : A → Type κ) where
  pub All-append : (xs ys : List A) → All P xs → All P ys → All P (xs ++ ys)
  All-append [] ys hx hy = hy
  All-append (x ∷ xs) ys hx hy = (hx.0, All-append xs ys hx.1 hy)

  pub All-drop : (n : ℕ) (xs : List A) → All P xs → All P (drop n xs)
  All-drop zero xs h = h
  All-drop (suc n) [] h = tt
  All-drop (suc n) (x ∷ xs) h = All-drop n xs h.1

  pub All-map {μ} : {Q : A → Type μ} (xs : List A) → ((x : A) → P x → Q x) → All P xs → All Q xs
  All-map [] f h = tt
  All-map (x ∷ xs) f h = (f x h.0, All-map xs f h.1)

pub IsSorted-drop : (n : ℕ) (xs : List ℕ) → IsSorted xs → IsSorted (drop n xs)
IsSorted-drop zero xs h = h
IsSorted-drop (suc n) [] h = tt
IsSorted-drop (suc n) (x ∷ xs) h = IsSorted-drop n xs h.1

-- A number that is not below any entry may stand at the end.
pub IsSorted-snoc :
    (xs : List ℕ) (x : ℕ) → IsSorted xs → All (λ y. y ≤ x) xs → IsSorted (xs ++ x ∷ [])
IsSorted-snoc [] x h k = (tt, tt)
IsSorted-snoc (y ∷ ys) x h k =
    (All-append (λ z. y ≤ z) ys (x ∷ []) h.0 (k.0, tt), IsSorted-snoc ys x h.1 k.1)

pub sorted_before :
    (xs : List ℕ) (i x : ℕ) → IsSorted xs → get_elem? xs i ≡ some x → All (λ y. y ≤ x) (take i xs)
sorted_before [] zero x h e = tt
sorted_before [] (suc i) x h e = tt
sorted_before (y ∷ ys) zero x h e = tt
sorted_before (y ∷ ys) (suc i) x h e = (at i ys h.0 e, sorted_before ys i x h.1 e)
  where
    at : (i : ℕ) (ys : List ℕ) → All (λ z. y ≤ z) ys → get_elem? ys i ≡ some x → y ≤ x
    at i [] a e = ground arith
    at zero (z ∷ zs) a e = ground arith
    at (suc i) (z ∷ zs) a e = at i zs a.1 e

pub sorted_from :
    (xs : List ℕ) (i x : ℕ) → IsSorted xs → get_elem? xs i ≡ some x → All (λ y. x ≤ y) (drop i xs)
sorted_from [] i x h e = ground arith
sorted_from (y ∷ ys) zero x h e =
    (ground arith, All-map (λ z. y ≤ z) ys (λ z (p : y ≤ z). ground arith) h.0)
sorted_from (y ∷ ys) (suc i) x h e = sorted_from ys i x h.1 e

pub take-append-drop {ℓ} : {A : Type ℓ} (n : ℕ) (xs : List A) → take n xs ++ drop n xs ≡ xs
take-append-drop zero xs = refl
take-append-drop (suc n) [] = refl
take-append-drop (suc n) (x ∷ xs) = rw (take-append-drop n xs)
