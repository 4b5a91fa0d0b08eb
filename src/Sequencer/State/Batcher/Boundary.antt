-- ===== src/Sequencer/State/Batcher/Boundary.antt =====
-- A proposal never cuts a linked chain in two.
use my_ledger.Common.{
  ℕ, zero, suc, ◌+◌, ◌-◌, ◌≤◌, ◌<◌, ◌≡◌, ◌≢◌, inl, inr, refl, ap, ◌∙◌, min, true, false, Bool-cases,
  List, ◌&&◌, not, ◌==◌, ltb, [], ◌∷◌, ◌++◌, All, ◌⊎◌, subst, arith, length, length-append,
}
use native.Mathlib.Decide.{dec_lt}
use my_ledger.Base.Ids.{LinkedChainId, absent, is_absent}
use my_ledger.Base.Effect.{Effect}
use my_ledger.Sequencer.State.Batcher.{Batcher, chain_at, splits_chain, chain_boundary, cut}

pub chain_boundary-le : (effects : List Effect) (n : ℕ) → chain_boundary effects n ≤ n
unfolding chain_boundary
chain_boundary-le effects zero = omega arith
chain_boundary-le effects (suc n) = ground (arith, chain_boundary-le effects n)

-- What a cut at a place asks: the two effects that meet there do not belong to one chain.
abbrev IsBoundary : List Effect → ℕ → Type 0
IsBoundary effects zero = Unit {0}
IsBoundary effects (suc t) = splits_chain effects t ≡ false

chain_boundary-IsBoundary :
    (effects : List Effect) (n : ℕ) → IsBoundary effects (chain_boundary effects n)
unfolding chain_boundary
chain_boundary-IsBoundary effects zero = tt
chain_boundary-IsBoundary effects (suc n) = elim (Bool-cases (splits_chain effects n)) [
  | inl splits ↦ rw splits (chain_boundary-IsBoundary effects n)
  | inr whole ↦ rw whole whole
]

-- Every place that the walk leaves behind lies inside a chain, so it goes no further back than it has
-- to.
chain_boundary-splits :
    (effects : List Effect) (n t : ℕ)
    → chain_boundary effects n ≤ t
    → t < n
    → splits_chain effects t ≡ true
unfolding chain_boundary
chain_boundary-splits effects zero t lo hi = absurd (omega arith)
chain_boundary-splits effects (suc n) t lo hi = elim (Bool-cases (splits_chain effects n)) [
  | inl splits ↦ elim (dec_lt t n) [
    | yes before ↦ chain_boundary-splits effects n t (ground arith) before
    | no last ↦ let e : t ≡ n = omega arith in rw e splits
  ]
  | inr whole ↦ absurd (ground arith)
]

same_chain :
    (effects : List Effect) (t : ℕ)
    → splits_chain effects t ≡ true
    → (chain_at effects (suc t) ≡ chain_at effects t) × (chain_at effects t ≢ absent)
same_chain effects t h = ground arith

-- A run of places inside chains is a run of one chain.
run_of_chain :
    (effects : List Effect) (from k : ℕ)
    → ((t : ℕ) → from ≤ t → t < from + k → splits_chain effects t ≡ true)
    → chain_at effects (from + k) ≡ chain_at effects from
run_of_chain effects from zero h = ap (chain_at effects) (omega arith)
run_of_chain effects from (suc k) h =
    ap (chain_at effects) (omega arith)
    ∙ (same_chain effects (from + k) (h (from + k) (omega arith) (omega arith))).0
    ∙ run_of_chain effects from k (λ t lo hi. h t lo (omega arith))

-- The effects of a linked chain, of all those with that chain's id.
abbrev pub IsChain : LinkedChainId → List Effect → Type 0
IsChain chain legs = (chain ≢ absent) × All (λ effect. effect.chain ≡ chain) legs

chain_at-leg :
    (before legs after : List Effect) (chain : LinkedChainId) (n : ℕ)
    → All (λ effect. effect.chain ≡ chain) legs
    → length before ≤ n
    → n < length before + length legs
    → chain_at (before ++ (legs ++ after)) n ≡ chain
chain_at-leg [] [] after chain n all lo hi = absurd (omega arith)
chain_at-leg [] (leg ∷ legs) after chain zero all lo hi = all.0
chain_at-leg [] (leg ∷ legs) after chain (suc n) all lo hi =
    chain_at-leg [] legs after chain n all.1 (omega arith) (omega arith)
chain_at-leg (e ∷ before) legs after chain zero all lo hi = absurd (omega arith)
chain_at-leg (e ∷ before) legs after chain (suc n) all lo hi =
    chain_at-leg before legs after chain n all (omega arith) (omega arith)

legs-within :
    (before legs after : List Effect)
    → length before + length legs ≤ length (before ++ (legs ++ after))
legs-within before legs after =
    omega (arith, length-append before (legs ++ after), length-append legs after)

inside_splits :
    (length_of at next chain t n : ℕ)
    → at ≡ chain
    → next ≡ chain
    → chain ≢ 0
    → suc t < n
    → n ≤ length_of
    → (ltb (suc t) length_of && not (is_absent at) && at == next) ≡ true
inside_splits length_of at next chain t n e k named lt le = rw (e, k) (ground (arith, named))

boundary_outside :
    (before legs after : List Effect) (chain : LinkedChainId) (n : ℕ)
    → IsChain chain legs
    → IsBoundary (before ++ (legs ++ after)) n
    → (n ≤ length before) ⊎ (length before + length legs ≤ n)
boundary_outside before legs after chain zero is h = inl (omega arith)
boundary_outside before legs after chain (suc t) is h = elim (dec_lt t (length before)) [
  | yes early ↦ inl (omega arith)
  | no late ↦ elim (dec_lt (suc t) (length before + length legs)) [
    | no past ↦ inr (omega arith)
    | yes inside ↦
        let splits =
          inside_splits (length (before ++ (legs ++ after))) _ _ chain t
            (length before + length legs)
            (chain_at-leg before legs after chain t is.1 (omega arith) (omega arith))
            (chain_at-leg before legs after chain (suc t) is.1 (omega arith) inside) is.0 inside
            (legs-within before legs after) in
        absurd (ground (arith, h, splits))
  ]
]

-- A proposal is cut at the policy's ceiling or earlier and takes no more than there is. Effects that stand
-- together and belong to one linked chain are all in it or all left for the next: the cut is not inside
-- them. And it is cut no earlier than it has to be: at every place from the cut to the ceiling, two
-- effects of one chain meet.
pub cut-IsBoundary :
    (b : Batcher) (before legs after : List Effect) (chain : LinkedChainId)
    → b.effects ≡ before ++ (legs ++ after)
    → IsChain chain legs
    → (cut b ≤ b.policy.max_batch)
      × (cut b ≤ length b.effects)
      × ((cut b ≤ length before) ⊎ (length before + length legs ≤ cut b))
      × ((t : ℕ)
          → cut b ≤ t
          → t < min (length b.effects) b.policy.max_batch
          → (chain_at b.effects (suc t) ≡ chain_at b.effects t) × (chain_at b.effects t ≢ absent))
unfolding cut
cut-IsBoundary b before legs after chain e is =
    let most = min (length b.effects) b.policy.max_batch in
    (
      omega (arith, chain_boundary-le b.effects most),
      omega (arith, chain_boundary-le b.effects most),
      boundary_outside before legs after chain (chain_boundary b.effects most) is (
          subst (λ effects. IsBoundary effects (chain_boundary b.effects most)) e
            (chain_boundary-IsBoundary b.effects most)),
      λ t lo hi. same_chain b.effects t (chain_boundary-splits b.effects most t lo hi),
    )

-- The effects at the places `0` to `n` all belong to one chain.
abbrev pub IsOneChain : List Effect → ℕ → Type 0
IsOneChain effects zero = chain_at effects 0 ≢ absent
IsOneChain effects (suc n) = (chain_at effects (suc n) ≡ chain_at effects 0) × IsOneChain effects n

IsOneChain-at :
    (effects : List Effect) (n t : ℕ)
    → t ≤ n
    → IsOneChain effects n
    → (chain_at effects t ≡ chain_at effects 0) × (chain_at effects 0 ≢ absent)
IsOneChain-at effects zero t h one = let e : t ≡ 0 = omega arith in rw e (refl, one)
IsOneChain-at effects (suc n) t h one = elim (dec_lt n t) [
  | yes last ↦
      let e : t ≡ suc n = omega arith in
      rw e (one.0, (IsOneChain-at effects n 0 (omega arith) one.1).1)
  | no before ↦ IsOneChain-at effects n t (omega arith) one.1
]

run-IsOneChain :
    (effects : List Effect) (n : ℕ)
    → chain_at effects 0 ≢ absent
    → ((t : ℕ) → t < n → splits_chain effects t ≡ true)
    → IsOneChain effects n
run-IsOneChain effects zero named h = named
run-IsOneChain effects (suc n) named h = (
  (same_chain effects n (h n (omega arith))).0
      ∙ ap (chain_at effects) (omega arith)
      ∙ run_of_chain effects 0 n (λ t lo hi. h t (omega arith)),
  run-IsOneChain effects n named (λ t lt. h t (omega arith)),
)

cut_zero-splits :
    (b : Batcher)
    → cut b ≡ 0
    → (t : ℕ) → t < min (length b.effects) b.policy.max_batch
    → splits_chain b.effects t ≡ true
unfolding cut
cut_zero-splits b e t h =
    chain_boundary-splits b.effects (min (length b.effects) b.policy.max_batch) t (omega (arith, e))
      h

splits_chain-lt :
    (effects : List Effect) (t : ℕ) → splits_chain effects t ≡ true → suc t < length effects
splits_chain-lt effects t h = ground arith

cut_zero-lt :
    (b : Batcher) (n : ℕ)
    → length b.effects ≡ suc n
    → 0 < b.policy.max_batch
    → cut b ≡ 0
    → b.policy.max_batch < length b.effects
cut_zero-lt b n some_left room e = elim (dec_lt b.policy.max_batch (length b.effects)) [
  | yes h ↦ h
  | no h ↦ absurd (omega (arith, splits_chain-lt b.effects n (cut_zero-splits b e n (omega arith))))
]

-- A batcher that holds effects makes an empty proposal only when the first effects, one more than the
-- ceiling, all belong to one linked chain.
pub cut_zero-IsOneChain :
    (b : Batcher)
    → 0 < length b.effects
    → 0 < b.policy.max_batch
    → cut b ≡ 0
    → (b.policy.max_batch < length b.effects) × IsOneChain b.effects b.policy.max_batch
cut_zero-IsOneChain b some_left room e =
    let more : b.policy.max_batch < length b.effects =
      cut_zero-lt b (length b.effects - 1) (omega arith) room e in
    (
      more,
      run-IsOneChain b.effects b.policy.max_batch
          (same_chain b.effects 0 (cut_zero-splits b e 0 (omega arith))).1
          (λ t h. cut_zero-splits b e t (omega arith)),
    )

all_split :
    (effects : List Effect) (n : ℕ)
    → ((t : ℕ) → t < n → splits_chain effects t ≡ true)
    → chain_boundary effects n ≡ 0
unfolding chain_boundary
all_split effects zero h = refl
all_split effects (suc n) h =
    rw (h n (omega arith)) (all_split effects n (λ t lt. h t (omega arith)))

-- A linked chain of more effects than the ceiling, when it stands at the front, can never be proposed:
-- the cut is at zero, whatever stands behind it.
pub cut-IsOneChain :
    (b : Batcher)
    → b.policy.max_batch < length b.effects
    → IsOneChain b.effects b.policy.max_batch
    → cut b ≡ 0
unfolding cut
cut-IsOneChain b more one =
    let e : min (length b.effects) b.policy.max_batch ≡ b.policy.max_batch = omega arith in
    rw e (
      all_split b.effects b.policy.max_batch (λ t lt. ground (
        arith,
        IsOneChain-at b.effects b.policy.max_batch t (omega arith) one,
        IsOneChain-at b.effects b.policy.max_batch (suc t) (omega arith) one,
      )))
