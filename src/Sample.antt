-- ===== src/Sample.antt =====
-- src/sample.c and src/sample.h: when to sample a request. The state is a 256-bit xoshiro256+
-- generator and the number of bytes to let pass before the next sample.
pub mod Xoshiro
pub mod Inverse
pub mod Request
pub mod Draw
pub mod Reset
pub mod Examples
use poireau.Prelude.{
  ℕ, zero, suc, ◌+◌, ◌-◌, ◌*◌, ◌/◌, ◌%◌, ◌^◌, bit_or, bit_xor, Bool, true, false, ◌&&◌, ◌||◌, ltb,
  leb, ◌==◌, if◌then◌else◌,
}
use poireau.Word.{add64, sub64, shl64, shr64}
use poireau.Exec.{Failure, done, Exec, pure, fail, ◌>>=◌, ◌>>◌, gets, modify, check}

-- The generator's words `s[0]` to `s[3]`.
pub record SampleState : Type 0 where
  pub s0 : ℕ
  pub s1 : ℕ
  pub s2 : ℕ
  pub s3 : ℕ
  pub bytes_until_next_sample : ℕ

-- What a call of the `getrandom` system call does with the four words of the buffer.
pub data Reply : Type 0 where
  filled : (w0 w1 w2 w3 : ℕ) → Reply
  interrupted refused : Reply

-- The kernel's source of randomness.
pub record Entropy : Type 1 where
  pub State : Type 0
  pub getrandom : State → Reply × State

-- The processor's doubles and the C library's `log`. `to_size` is the conversion to `size_t`.
pub record Doubles : Type 1 where
  pub Double : Type 0
  pub one : Double
  pub of_size : ℕ → Double
  pub to_bits : Double → ℕ
  pub of_bits : ℕ → Double
  pub minus : Double → Double → Double
  pub times : Double → Double → Double
  pub negate : Double → Double
  pub log : Double → Double
  pub to_size : Double → ℕ

-- 32 MB
abbrev pub sample_period : ℕ
sample_period = 2 ^ 25

pub rotl : (x k : ℕ) → ℕ
rotl x k = bit_or (shl64 x k) (shr64 x (64 - k))

-- The new words of the generator.
pub xoshiro_step : SampleState → SampleState
unfolding rotl
xoshiro_step st =
    let t = shl64 st.s1 17 in
    let s2 = bit_xor st.s2 st.s0 in
    let s3 = bit_xor st.s3 st.s1 in
    let s1 = bit_xor st.s1 s2 in
    let s0 = bit_xor st.s0 s3 in record st { s0 = s0; s1 = s1; s2 = bit_xor s2 t; s3 = rotl s3 45 }

-- The top 52 bits of the sum of two words.
unfoldable pub xoshiro_output : SampleState → ℕ
xoshiro_output st = shr64 (add64 st.s0 st.s3) (64 - 52)

abbrev pub all_zero : SampleState → Bool
all_zero st = st.s0 == 0 && st.s1 == 0 && st.s2 == 0 && st.s3 == 0

-- The subtraction of `request` in portable C. The answer says whether to sample.
pub sample_request_portable : (request : ℕ) → SampleState → Bool × SampleState
sample_request_portable request st =
    let current = st.bytes_until_next_sample in
    let remaining = sub64 current request in
    (leb current request, record st { bytes_until_next_sample = remaining })

-- The same with `subq`: its condition `be` is the carry flag or the zero flag.
pub sample_request_x86 : (request : ℕ) → SampleState → Bool × SampleState
sample_request_x86 request st =
    let remaining = sub64 st.bytes_until_next_sample request in
    let carry = ltb st.bytes_until_next_sample request in
    let zero_flag = remaining == 0 in
    (carry || zero_flag, record st { bytes_until_next_sample = remaining })

module _ (e : Entropy) where
  -- One thread's sampler and the source that seeds it.
  pub record Sampler : Type 0 where
    pub state : SampleState
    pub source : e.State

  abbrev pub Sampling : Type 0 → Type 0
  Sampling A = Exec Sampler A

  unfoldable pub sample_request : ℕ → Sampling Bool
  unfolding sample_request_portable
  sample_request request m =
      let (sampled, st) = sample_request_portable request m.state in
      done sampled (record m { state = st })

  pub xoshiro_next : Sampling ℕ
  unfolding xoshiro_step xoshiro_output
  xoshiro_next m = done (xoshiro_output m.state) (record m { state = xoshiro_step m.state })

  -- `do r = getrandom(...); while (r < 0 && errno == EINTR);` with the assertion that follows.
  pub seed : (fuel : ℕ) → Sampling (Unit {0})
  seed zero m = fail Failure.out_of_fuel m
  seed (suc fuel) m =
      let (reply, source) = e.getrandom m.source in
      elim reply [
        | filled w0 w1 w2 w3 ↦ done tt (record {
          state = record m.state { s0 = w0; s1 = w1; s2 = w2; s3 = w3 };
          source = source;
        })
        | interrupted ↦ seed fuel (record m { source = source })
        | refused ↦ fail Failure.assertion m
      ]

  pub maybe_initialize_xoshiro : (fuel : ℕ) → Sampling Bool
  maybe_initialize_xoshiro fuel = do
    zeroed ← gets (λ m. all_zero m.state)
    if zeroed then (do seed fuel; pure true) else pure false

  -- The result with `*newly_initialized`.
  pub sample_uniform_slow_path : (fuel rounds : ℕ) → Bool → Sampling (ℕ × Bool)
  sample_uniform_slow_path fuel zero newly = fail Failure.out_of_fuel
  sample_uniform_slow_path fuel (suc rounds) newly = do
    initialized ← maybe_initialize_xoshiro fuel
    ret ← xoshiro_next
    elim (ret == 0) [
      | true ↦ sample_uniform_slow_path fuel rounds (newly || initialized)
      | false ↦ pure (ret, newly || initialized)
    ]

  -- The bits of `sample_uniform`, before they become a double.
  pub uniform_bits : (fuel : ℕ) → Bool → Sampling (ℕ × Bool)
  uniform_bits fuel newly = do
    bits ← xoshiro_next
    if bits == 0 then sample_uniform_slow_path fuel fuel newly else pure (bits, newly)

  module _ (d : Doubles) where
    pub sample_uniform : (fuel : ℕ) → Bool → Sampling (d.Double × Bool)
    unfolding uniform_bits
    sample_uniform fuel newly = do
      (bits, newly') ← uniform_bits fuel newly
      pure (d.minus (d.of_bits (bit_or (d.to_bits d.one) bits)) d.one, newly')

    pub sample_exponential : (fuel : ℕ) → d.Double → Bool → Sampling (d.Double × Bool)
    sample_exponential fuel mean newly = do
      (u, newly') ← sample_uniform fuel newly
      pure (d.times (d.negate mean) (d.log u), newly')

    -- The threshold is redrawn until it is not 0, or until the generator was just seeded.
    pub reset_loop : (fuel rounds : ℕ) → Sampling Bool
    reset_loop fuel zero = fail Failure.out_of_fuel
    reset_loop fuel (suc rounds) = do
      (x, newly) ← sample_exponential fuel (d.of_size sample_period) false
      modify (λ m. record m { state = record m.state { bytes_until_next_sample = d.to_size x } })
      if newly
          then pure true
          else elim (d.to_size x == 0) [ true ↦ reset_loop fuel rounds | false ↦ pure false ]

    pub sample_request_reset : (fuel : ℕ) → Sampling Bool
    unfolding reset_loop
    sample_request_reset fuel = reset_loop fuel fuel
