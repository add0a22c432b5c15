-- ===== src/Storage/Bytes.antt =====
-- Big-endian numbers and the parts of a file.
use aize.Prelude.{
  ℕ, zero, suc, ◌+◌, ◌*◌, ◌/◌, ◌%◌, ◌≤◌, ◌<◌, ◌≡◌, refl, ap, [], ◌∷◌, ◌++◌, arith, length,
  length-append,
}
use aize.Storage.{Bytes, take, drop, to_be, from_be}

abbrev pub pow256 : ℕ → ℕ
pow256 zero = 1
pow256 (suc k) = 256 * pow256 k

from_be-append : (bs cs : Bytes) (acc : ℕ) → from_be (bs ++ cs) acc ≡ from_be cs (from_be bs acc)
unfolding from_be
from_be-append [] cs acc = refl
from_be-append (b ∷ bs) cs acc = from_be-append bs cs (acc * 256 + b)

pub from_be-to_be : (k n : ℕ) → n < pow256 k → from_be (to_be k n) 0 ≡ n
unfolding from_be to_be
from_be-to_be zero n h = omega arith
from_be-to_be (suc k) n h =
    rw
      (from_be-append (to_be k (n / 256)) (n % 256 ∷ []) 0, from_be-to_be k (n / 256) (omega arith))
      (omega arith)

pub length-to_be : (k n : ℕ) → length (to_be k n) ≡ k
unfolding to_be
length-to_be zero n = refl
length-to_be (suc k) n =
    omega (arith, length-append (to_be k (n / 256)) (n % 256 ∷ []), length-to_be k (n / 256))

pub take-append : (xs ys : Bytes) → take (length xs) (xs ++ ys) ≡ xs
take-append [] ys = refl
take-append (x ∷ xs) ys = ap (λ l. x ∷ l) (take-append xs ys)

pub drop-append : (xs ys : Bytes) → drop (length xs) (xs ++ ys) ≡ ys
drop-append [] ys = refl
drop-append (x ∷ xs) ys = drop-append xs ys

pub take-drop : (n : ℕ) (xs : Bytes) → take n xs ++ drop n xs ≡ xs
take-drop zero xs = refl
take-drop (suc n) [] = refl
take-drop (suc n) (x ∷ xs) = ap (λ l. x ∷ l) (take-drop n xs)

pub length-take_le : (n : ℕ) (xs : Bytes) → length (take n xs) ≤ n
length-take_le zero xs = omega arith
length-take_le (suc n) [] = omega arith
length-take_le (suc n) (x ∷ xs) = omega (arith, length-take_le n xs)

pub length-take : (n : ℕ) (xs : Bytes) → n ≤ length xs → length (take n xs) ≡ n
length-take zero xs h = refl
length-take (suc n) [] h = omega arith
length-take (suc n) (x ∷ xs) h = omega (arith, length-take n xs (omega arith))

pub take_all : (n : ℕ) (xs : Bytes) → length xs ≤ n → take n xs ≡ xs
take_all zero [] h = refl
take_all zero (x ∷ xs) h = absurd (omega arith)
take_all (suc n) [] h = refl
take_all (suc n) (x ∷ xs) h = ap (λ l. x ∷ l) (take_all n xs (omega arith))

-- A cut inside the first part, and one behind it.
pub take-append_left : (n : ℕ) (xs ys : Bytes) → n ≤ length xs → take n (xs ++ ys) ≡ take n xs
take-append_left zero xs ys h = refl
take-append_left (suc n) [] ys h = absurd (omega arith)
take-append_left (suc n) (x ∷ xs) ys h = ap (λ l. x ∷ l) (take-append_left n xs ys (omega arith))

pub take-append_right :
    (n m : ℕ) (xs ys : Bytes) → n ≡ length xs + m → take n (xs ++ ys) ≡ xs ++ take m ys
take-append_right n m [] ys e = ap (λ k. take k ys) (omega arith)
take-append_right zero m (x ∷ xs) ys e = absurd (omega arith)
take-append_right (suc n) m (x ∷ xs) ys e =
    ap (λ l. x ∷ l) (take-append_right n m xs ys (omega arith))
