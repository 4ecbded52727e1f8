-- ===== src/Sample/Request.antt =====
-- `sample_request`: both versions agree, and the requests that pass add up to less than the
-- threshold.
use poireau.Prelude.{
  ℕ, ◌+◌, ◌-◌, ◌^◌, ◌≤◌, ◌<◌, ◌≡◌, refl, List, [], ◌∷◌, ◌++◌, ◌⊎◌, leb, if◌then◌else◌, arith,
  Bool-cases, inl, inr, ap,
}
use poireau.Word.{sub64}
use poireau.Sample.{SampleState, sample_request_portable, sample_request_x86}

-- The inline assembly and the portable C give the same answer and the same state, for 64-bit
-- words.
pub sample_request_x86-eq-portable :
    (request : ℕ) (st : SampleState)
    → request < 2 ^ 64
    → st.bytes_until_next_sample < 2 ^ 64
    → sample_request_x86 request st ≡ sample_request_portable request st
unfolding sample_request_x86 sample_request_portable
sample_request_x86-eq-portable request st h i = ground arith

-- A run of requests until the first that is sampled: the requests that are left, and the state.
unfoldable pub skip : List ℕ → SampleState → List ℕ × SampleState
skip [] st = ([], st)
skip (r ∷ rs) st =
    let (sampled, st') = sample_request_portable r st in
    let rest = skip rs st' in if sampled then (r ∷ rs, st') else rest

abbrev pub total : List ℕ → ℕ
total [] = 0
total (r ∷ rs) = r + total rs

-- No request was sampled: they add up to less than `n`, and the difference is kept.
abbrev pub AllPass : ℕ → List ℕ → List ℕ × SampleState → Type 0
AllPass n rs (left, st) = (left ≡ []) × (total rs < n) × (st.bytes_until_next_sample + total rs ≡ n)

-- The first sampled request is the one that holds byte number `n` of the stream.
pub record Hits (n : ℕ) (rs : List ℕ) (left : List ℕ) : Type 0 where
  pub before : List ℕ
  pub hit : ℕ
  pub after : List ℕ
  pub split : rs ≡ before ++ hit ∷ after
  pub is_left : left ≡ hit ∷ after
  pub below : total before < n
  pub reaches : n ≤ total before + hit

Hits-cons : (n r : ℕ) (rs left : List ℕ) → r < n → Hits (n - r) rs left → Hits n (r ∷ rs) left
Hits-cons n r rs left h w = record {
  before = r ∷ w.before;
  hit = w.hit;
  after = w.after;
  split = ap (λ l. r ∷ l) w.split;
  is_left = w.is_left;
  below = omega (arith, w.below);
  reaches = omega (arith, w.reaches);
}

-- Requests are taken as one stream of bytes: with a positive threshold n, either all requests
-- pass, and n is lowered by their sum, or the first sampled request is the one that holds byte
-- number n.
pub skip_lem :
    (rs : List ℕ) (st : SampleState)
    → 0 < st.bytes_until_next_sample
    → st.bytes_until_next_sample < 2 ^ 64
    → AllPass st.bytes_until_next_sample rs (skip rs st)
      ⊎ Hits st.bytes_until_next_sample rs (skip rs st).0
unfolding skip sample_request_portable
skip_lem [] st pos h = inl (refl, pos, omega arith)
skip_lem (r ∷ rs) st pos h = elim (Bool-cases (leb st.bytes_until_next_sample r)) [
  | inl sampled ↦ rw sampled (
      inr (record {
        before = [];
        hit = r;
        after = rs;
        split = refl;
        is_left = refl;
        below = pos;
        reaches = ground arith;
      }))
  | inr passed ↦
      let n = st.bytes_until_next_sample in
      let lowered : sub64 n r ≡ n - r = ground arith in
      let st' : SampleState = record st { bytes_until_next_sample = n - r } in
      rw (passed, lowered)
        (elim (skip_lem rs st' (ground arith) (omega arith)) [
          | inl (none_left, sum, kept) ↦ inl (none_left, ground arith, ground arith)
          | inr hits ↦ inr (Hits-cons n r rs (skip rs st').0 (ground arith) hits)
        ])
]
