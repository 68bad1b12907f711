-- ===== src/Read/Stream/Marks.antt =====
-- Marked bytes taken apart.
use tcslog.Prelude.{
  ℕ, zero, suc, ◌+◌, ◌≤◌, ◌≡◌, refl, ap, ◌∙◌, arith, List, [], ◌∷◌, ◌++◌, length, take, drop,
}
use tcslog.Read.Stream.{mark, Marked, marked, bytes_of}

pub bytes_of-append : (a b : List Marked) → bytes_of (a ++ b) ≡ bytes_of a ++ bytes_of b
bytes_of-append [] b = refl
bytes_of-append ((m, x) ∷ a) b = ap (λ (l : List ℕ). x ∷ l) (bytes_of-append a b)

pub bytes_of-marked : (total c : ℕ) (bs : List ℕ) → bytes_of (marked total c bs) ≡ bs
bytes_of-marked total c [] = refl
bytes_of-marked total c (b ∷ bs) = ap (λ (l : List ℕ). b ∷ l) (bytes_of-marked total (suc c) bs)

pub length-bytes_of : (a : List Marked) → length (bytes_of a) ≡ length a
length-bytes_of [] = refl
length-bytes_of ((m, x) ∷ a) = ap suc (length-bytes_of a)

pub bytes_of-drop : (n : ℕ) (a : List Marked) → bytes_of (drop n a) ≡ drop n (bytes_of a)
bytes_of-drop zero a = refl
bytes_of-drop (suc n) [] = refl
bytes_of-drop (suc n) ((m, x) ∷ a) = bytes_of-drop n a

pub length-marked : (total c : ℕ) (bs : List ℕ) → length (marked total c bs) ≡ length bs
length-marked total c [] = refl
length-marked total c (b ∷ bs) = ap suc (length-marked total (suc c) bs)

pub drop-marked :
    (total c n : ℕ) (bs : List ℕ) → drop n (marked total c bs) ≡ marked total (c + n) (drop n bs)
drop-marked total c zero bs =
    ap (λ (k : ℕ). marked total k bs) (let e : c ≡ c + 0 = omega arith in e)
drop-marked total c (suc n) [] = refl
drop-marked total c (suc n) (b ∷ bs) =
    drop-marked total (suc c) n bs
    ∙ ap (λ (k : ℕ). marked total k (drop n bs)) (let e : suc c + n ≡ c + suc n = omega arith in e)

pub take-append_le {ℓ} :
    {A : Type ℓ} (n : ℕ) (xs ys : List A) → n ≤ length xs → take n (xs ++ ys) ≡ take n xs
take-append_le zero xs ys h = refl
take-append_le (suc n) [] ys h = absurd (omega arith)
take-append_le (suc n) (x ∷ xs) ys h = ap (λ t. x ∷ t) (take-append_le n xs ys (omega arith))

pub marked-append :
    (total c : ℕ) (xs ys : List ℕ)
    → marked total c (xs ++ ys) ≡ marked total c xs ++ marked total (c + length xs) ys
marked-append total c [] ys =
    ap (λ (k : ℕ). marked total k ys) (let e : c ≡ c + 0 = omega arith in e)
marked-append total c (x ∷ xs) ys =
    ap (λ t. (mark total c, x) ∷ t)
      (marked-append total (suc c) xs ys
        ∙ ap (λ (k : ℕ). marked total (suc c) xs ++ marked total k ys)
            (let e : suc c + length xs ≡ c + suc (length xs) = omega arith in e))
