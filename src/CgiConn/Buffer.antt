-- ===== src/CgiConn/Buffer.antt =====
-- cpt_15_3.h, the buffer of cgi_conn: what recv has stored, and what the program reads of it.
use linux_network.Base.{
  ℕ, zero, suc, ◌+◌, ◌-◌, ◌≤◌, ◌<◌, ◌≡◌, refl, sym, ap, ◌∙◌, List, [], ◌∷◌, ◌++◌, append-nil,
  append_assoc, arith, length, set, get_or, take, length-set, get_or-append_left,
}
use linux_network.CgiConn.{crlf_at, write_at, c_string}

pub length-write_at : (buf : List ℕ) (i : ℕ) (xs : List ℕ) → length (write_at buf i xs) ≡ length buf
unfolding write_at
length-write_at buf i [] = refl
length-write_at buf i (x ∷ xs) = length-write_at (set buf i x) (suc i) xs ∙ length-set buf i x

take-set-suc :
    (buf : List ℕ) (i : ℕ) (x : ℕ)
    → i < length buf
    → take (suc i) (set buf i x) ≡ take i buf ++ x ∷ []
take-set-suc [] i x h = elim h [ ]
take-set-suc (y ∷ buf) zero x h = refl
take-set-suc (y ∷ buf) (suc i) x h = ap (λ l. y ∷ l) (take-set-suc buf i x (omega arith))

-- Bytes stored at `i` stand behind the first `i` bytes.
pub take-write_at :
    (buf : List ℕ) (i j : ℕ) (xs : List ℕ)
    → j ≡ i + length xs
    → j ≤ length buf
    → take j (write_at buf i xs) ≡ take i buf ++ xs
unfolding write_at
take-write_at buf i j [] e h = let e' : j ≡ i = omega arith in rw e' (sym (append-nil _))
take-write_at buf i j (x ∷ xs) e h =
    take-write_at (set buf i x) (suc i) j xs (omega arith) (omega (arith, length-set buf i x))
    ∙ rw (take-set-suc buf i x (omega arith)) (append_assoc (take i buf) (x ∷ []) xs)

get_or-take : (buf : List ℕ) (n k d : ℕ) → k < n → get_or (take n buf) k d ≡ get_or buf k d
get_or-take buf zero k d h = elim h [ ]
get_or-take [] (suc n) k d h = refl
get_or-take (x ∷ buf) (suc n) zero d h = refl
get_or-take (x ∷ buf) (suc n) (suc k) d h = get_or-take buf n k d (omega arith)

-- The test for CR LF at `k` reads nothing behind `k`.
pub crlf_at-take : (buf : List ℕ) (n k : ℕ) → k < n → crlf_at (take n buf) k ≡ crlf_at buf k
unfolding crlf_at
crlf_at-take buf n k h = rw (get_or-take buf n k 0 h, get_or-take buf n (k - 1) 0 (omega arith))

-- A NUL stored at `i` ends the string there at the latest.
pub c_string-set :
    (buf : List ℕ) (i : ℕ) → i < length buf → c_string (set buf i 0) ≡ c_string (take i buf)
unfolding c_string
c_string-set [] i h = elim h [ ]
c_string-set (x ∷ buf) zero h = refl
c_string-set (x ∷ buf) (suc i) h = rw (c_string-set buf i (omega arith))

pub length-take : (buf : List ℕ) (n : ℕ) → n ≤ length buf → length (take n buf) ≡ n
length-take buf zero h = refl
length-take [] (suc n) h = absurd (omega arith)
length-take (x ∷ buf) (suc n) h = ap suc (length-take buf n (omega arith))

pub take-append : (xs ys : List ℕ) (n : ℕ) → n ≤ length xs → take n (xs ++ ys) ≡ take n xs
take-append xs ys zero h = refl
take-append [] ys (suc n) h = absurd (omega arith)
take-append (x ∷ xs) ys (suc n) h = ap (λ l. x ∷ l) (take-append xs ys n (omega arith))

pub crlf_at-append : (xs ys : List ℕ) (k : ℕ) → k < length xs → crlf_at (xs ++ ys) k ≡ crlf_at xs k
unfolding crlf_at
crlf_at-append xs ys k h =
    rw (get_or-append_left xs ys k 0 h, get_or-append_left xs ys (k - 1) 0 (omega arith))

pub take-take : (buf : List ℕ) (m n : ℕ) → m ≤ n → take m (take n buf) ≡ take m buf
take-take buf zero n h = refl
take-take [] (suc m) zero h = refl
take-take [] (suc m) (suc n) h = refl
take-take (x ∷ buf) (suc m) zero h = absurd (omega arith)
take-take (x ∷ buf) (suc m) (suc n) h = ap (λ l. x ∷ l) (take-take buf m n (omega arith))
