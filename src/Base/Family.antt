-- ===== src/Base/Family.antt =====
-- Families `ℕ → A` indexed by process: update at one index, and weighted sums over the first `n`.
use Prim.Native.Nat.{ℕ, zero, suc, ◌+◌, ◌≤◌, ◌<◌}
use mathlib.Core.Path.{◌≡◌, refl, ap, sym}
use mathlib.Core.Bool.{Bool, true, false}
use mathlib.Core.Logic.{◌⊎◌, inl, inr}
use native.Mathlib.Decide.{dec_lt, ℕ_discrete}
use native.Mathlib.Omega.{arith}
use so_assignment2_air_bridg.Base.Tests.{◌==◌, if◌then◌else◌, Bool-cases}

abbrev pub update {ℓ} : {A : Type ℓ} → (ℕ → A) → ℕ → A → ℕ → A
update f i a j = if i == j then a else f j

-- How much the members below a bound weigh together.
unfoldable pub total {ℓ} : {A : Type ℓ} → (A → ℕ) → ℕ → (ℕ → A) → ℕ
total weight zero member = 0
total weight (suc k) member = weight (member k) + total weight k member

-- Two weighings that agree on every member have the same total.
pub total-cong {ℓ κ} :
    {A : Type ℓ} {B : Type κ} (v : A → ℕ) (w : B → ℕ) (k : ℕ) (f : ℕ → A) (g : ℕ → B)
    → ((j : ℕ) → j < k → v (f j) ≡ w (g j))
    → total v k f ≡ total w k g
unfolding total
total-cong v w zero f g same = refl
total-cong v w (suc k) f g same =
    omega (arith, same k (omega arith), total-cong v w k f g (λ j lt. same j (omega arith)))

-- A member that is replaced by `b` hands its weight over to `b`.
pub total-update {ℓ} :
    {A : Type ℓ} (weight : A → ℕ) (f : ℕ → A) (b : A) (k j : ℕ)
    → j < k
    → weight (f j) + total weight k (update f j b) ≡ weight b + total weight k f
unfolding total
total-update weight f b zero j out = elim out [ ]
total-update weight f b (suc k) j lt = elim (ℕ_discrete j k) [
  | yes top ↦
      let rest : total weight k (update f j b) ≡ total weight k f =
        total-cong weight weight k (update f j b) f (λ i below. ground arith) in
      ground (arith, ap (λ (i : ℕ). weight (f i)) top)
  | no inner ↦
      let before : j < k = omega arith in ground (arith, total-update weight f b k j before)
]

module _ {ℓ} {A : Type ℓ} (w : A → ℕ) where
  pub total-own : (n : ℕ) (f : ℕ → A) (i : ℕ) → i < n → w (f i) ≤ total w n f
  unfolding total
  total-own zero f i h = absurd (omega arith)
  total-own (suc n) f i h = elim (dec_lt i n) [
    | yes below ↦ omega (arith, total-own n f i below)
    | no last ↦ let e : i ≡ n = omega arith in rw e (omega arith)
  ]

  pub total_bounded : ((a : A) → w a ≤ 1) → (n : ℕ) (f : ℕ → A) → total w n f ≤ n
  unfolding total
  total_bounded h zero f = omega arith
  total_bounded h (suc n) f = omega (arith, h (f n), total_bounded h n f)

  pub total_ones : (n : ℕ) (f : ℕ → A) → ((i : ℕ) → i < n → w (f i) ≡ 1) → total w n f ≡ n
  unfolding total
  total_ones zero f h = refl
  total_ones (suc n) f h =
      omega (arith, total_ones n f (λ i lt. h i (omega arith)), h n (omega arith))

  pub total_zeros : (n : ℕ) (f : ℕ → A) → ((i : ℕ) → i < n → w (f i) ≡ 0) → total w n f ≡ 0
  unfolding total
  total_zeros zero f h = refl
  total_zeros (suc n) f h =
      omega (arith, total_zeros n f (λ i lt. h i (omega arith)), h n (omega arith))

  -- A sum of weights up to 1 is full only if each of them is 1.
  pub total_full :
      ((a : A) → w a ≤ 1) → (n : ℕ) (f : ℕ → A) → total w n f ≡ n → (i : ℕ) → i < n → w (f i) ≡ 1
  unfolding total
  total_full h zero f e i lt = absurd (omega arith)
  total_full h (suc n) f e i lt = elim (dec_lt i n) [
    | yes below ↦
        let rest : total w n f ≡ n = omega (arith, h (f n), total_bounded h n f) in
        total_full h n f rest i below
    | no last ↦
        let here : i ≡ n = omega arith in rw here (omega (arith, h (f n), total_bounded h n f))
  ]

  pub update-same : (f : ℕ → A) (i j : ℕ) (b : A) → w b ≡ w (f i) → w (update f i b j) ≡ w (f j)
  update-same f i j b e = elim (Bool-cases (i == j)) [
    | inl own ↦ let same : i ≡ j = ground arith in rw (own, sym same) e
    | inr other ↦ rw other refl
  ]

module _ {ℓ} {A : Type ℓ} (v w : A → ℕ) where
  -- A sum of smaller weights is smaller.
  pub total-le : ((a : A) → v a ≤ w a) → (n : ℕ) (f : ℕ → A) → total v n f ≤ total w n f
  unfolding total
  total-le h zero f = omega arith
  total-le h (suc n) f = omega (arith, h (f n), total-le h n f)

  -- Sums of smaller weights are equal only if all weights are.
  pub total-same :
      ((a : A) → v a ≤ w a)
      → (n : ℕ) (f : ℕ → A) → total w n f ≤ total v n f
      → (i : ℕ) → i < n
      → v (f i) ≡ w (f i)
  unfolding total
  total-same h zero f e i lt = absurd (omega arith)
  total-same h (suc n) f e i lt = elim (dec_lt i n) [
    | yes below ↦ total-same h n f (omega (arith, h (f n))) i below
    | no last ↦ let here : i ≡ n = omega arith in rw here (omega (arith, h (f n), total-le h n f))
  ]

module _ {ℓ} {A : Type ℓ} (p : A → Bool) where
  -- Either some member passes the test, or none does.
  pub find :
      (n : ℕ) (f : ℕ → A)
      → ((i : ℕ) × (i < n) × (p (f i) ≡ true)) ⊎ ((i : ℕ) → i < n → p (f i) ≡ false)
  find zero f = inr (λ i h. absurd (omega arith))
  find (suc n) f = elim (Bool-cases (p (f n))) [
    | inl hit ↦ inl (n, omega arith, hit)
    | inr miss ↦ elim (find n f) [
      | inl (i, lt, hit) ↦ inl (i, omega arith, hit)
      | inr none ↦ inr (λ i lt. elim (dec_lt i n) [
        | yes below ↦ none i below
        | no last ↦ let e : i ≡ n = omega arith in rw e miss
      ])
    ]
  ]
