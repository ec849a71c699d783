-- ===== src/CgiConn/Scan.antt =====
-- cpt_15_3.h, the loop of cgi_conn::process that looks for CR LF.
use linux_network.Base.{
  ℕ, zero, suc, ◌+◌, ◌≤◌, ◌<◌, ◌≡◌, inl, inr, true, false, List, arith, dec_lt, Bool-cases,
}
use linux_network.CgiConn.{crlf_at, find_crlf}

-- No CR LF ends in the indices from `i` up to `j`.
abbrev pub NoneIn : List ℕ → ℕ → ℕ → Type 0
NoneIn buf i j = (k : ℕ) → i ≤ k → k < j → crlf_at buf k ≡ false

-- Where the loop stops, from `i` for `n` rounds.
pub record Found (n i : ℕ) (buf : List ℕ) (r : ℕ) : Type 0 where
  pub low : i ≤ r
  pub high : r ≤ i + n
  pub before : NoneIn buf i r
  pub hit : r < i + n → crlf_at buf r ≡ true

NoneIn-suc :
    (buf : List ℕ) (i j : ℕ) → crlf_at buf i ≡ false → NoneIn buf (suc i) j → NoneIn buf i j
NoneIn-suc buf i j miss h k low high = elim (dec_lt i k) [
  | yes above ↦ h k above high
  | no here ↦ let e : k ≡ i = omega arith in rw e miss
]

Found-suc :
    (n i : ℕ) (buf : List ℕ) (r : ℕ)
    → crlf_at buf i ≡ false
    → Found n (suc i) buf r
    → Found (suc n) i buf r
Found-suc n i buf r miss f = record {
  low = omega arith;
  high = omega arith;
  before = NoneIn-suc buf i r miss f.before;
  hit = λ h. f.hit (omega arith);
}

pub find_crlf-Found : (n i : ℕ) (buf : List ℕ) → Found n i buf (find_crlf n i buf)
unfolding find_crlf
find_crlf-Found zero i buf = record {
  low = omega arith;
  high = omega arith;
  before = λ k a b. absurd (omega arith);
  hit = λ h. absurd (omega arith);
}
find_crlf-Found (suc n) i buf = elim (Bool-cases (crlf_at buf i)) [
  | inl here ↦ rw here (record {
    low = omega arith;
    high = omega arith;
    before = λ k a b. absurd (omega arith);
    hit = λ h. here;
  })
  | inr miss ↦ rw miss (Found-suc n i buf _ miss (find_crlf-Found n (suc i) buf))
]
