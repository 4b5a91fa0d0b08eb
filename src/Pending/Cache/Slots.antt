-- ===== src/Pending/Cache/Slots.antt =====
-- pending/src/cache.rs: what changes to the maps and lists of the cache leave.
use my_ledger.Common.{
  ℕ, ◌+◌, ◌≡◌, ◌≢◌, refl, subst, ◌∙◌, arith, Bool, true, false, some, List, [], ◌∷◌, ◌==◌, ==_iff,
  if◌then◌else◌, length, length-append, All, All-append, Bool-cases, inl, inr,
}
use my_ledger.Pending.Cache.{contains, without, read_again, free_slot}
use my_ledger.Pending.Keyed.{Key, KeyMap, eqb_key, at_key, put_key}

eqb_key-eq : (a b : Key) → eqb_key a b ≡ true → a ≡ b
eqb_key-eq a b e = ground (arith, e)

module _ {A : Type 0} where
  pub All-imp : (P Q : A → Type 0) (xs : List A) → ((x : A) → P x → Q x) → All P xs → All Q xs
  All-imp P Q [] f all = tt
  All-imp P Q (x ∷ xs) f all = (f x all.0, All-imp P Q xs f all.1)

  pub All-and : (P Q : A → Type 0) (xs : List A) → All P xs → All Q xs → All (λ x. P x × Q x) xs
  All-and P Q [] p q = tt
  All-and P Q (x ∷ xs) p q = ((p.0, q.0), All-and P Q xs p.1 q.1)

module _ {V : Type 0} where
  pub All-put_key :
      (P : Key × V → Type 0) (key : Key) (v : V) (m : KeyMap V)
      → P (key, v)
      → All P m
      → All P (put_key key v m)
  unfolding put_key
  All-put_key P key v [] new all = (new, all)
  All-put_key P key v ((k, old) ∷ rest) new all = elim (Bool-cases (eqb_key k key)) [
    | inl e ↦ rw e (new, all.1)
    | inr e ↦ rw e (all.0, All-put_key P key v rest new all.1)
  ]

  pub at_key-All :
      (P : Key × V → Type 0) (key : Key) (v : V) (m : KeyMap V)
      → All P m
      → at_key key m ≡ some v
      → P (key, v)
  unfolding at_key
  at_key-All P key v [] all e = absurd (cc e)
  at_key-All P key v ((k, w) ∷ rest) all e = elim (Bool-cases (eqb_key k key)) [
    | inl same ↦
        subst (λ k. P (k, v)) (eqb_key-eq k key same)
          (subst (λ v. P (k, v)) (found w v (subst (branch w) same e)) all.0)
    | inr other ↦ at_key-All P key v rest all.1 (subst (branch w) other e)
  ]
    where
      branch : V → Bool → Type 0
      branch w b = (if b then some w else at_key key rest) ≡ some v

      found : (w v : V) → some w ≡ some v → w ≡ v
      found w v e = cc e

pub All-free_slot :
    (P : Key × ℕ → Type 0) (slot : ℕ) (m : KeyMap ℕ)
    → All P m
    → All (λ e. P e × (e.1 ≢ slot)) (free_slot slot m)
unfolding free_slot
All-free_slot P slot [] all = tt
All-free_slot P slot ((k, at) ∷ rest) all = elim (Bool-cases (at == slot)) [
  | inl e ↦ rw e (All-free_slot P slot rest all.1)
  | inr e ↦ rw e ((all.0, differ at slot e), All-free_slot P slot rest all.1)
]
  where
    differ : (a b : ℕ) → (a == b) ≡ false → a ≢ b
    differ a b e = ground (arith, e)

All-without :
    (P : ℕ → Type 0) (slot : ℕ) (order : List ℕ) → All P order → All P (without slot order)
unfolding without
All-without P slot [] all = tt
All-without P slot (s ∷ rest) all = elim (Bool-cases (s == slot)) [
  | inl e ↦ rw e all.1
  | inr e ↦ rw e (all.0, All-without P slot rest all.1)
]

contains-All :
    (P : ℕ → Type 0) (slot : ℕ) (order : List ℕ) → All P order → contains slot order ≡ true → P slot
unfolding contains
contains-All P slot [] all e = absurd (cc e)
contains-All P slot (s ∷ rest) all e = elim (Bool-cases (s == slot)) [
  | inl same ↦ subst P ((==_iff s slot).0 same) all.0
  | inr other ↦
      contains-All P slot rest all.1
        (subst (λ b. (if b then true else contains slot rest) ≡ true) other e)
]

length-without :
    (slot : ℕ) (order : List ℕ)
    → contains slot order ≡ true
    → length (without slot order) + 1 ≡ length order
unfolding contains without
length-without slot [] e = absurd (cc e)
length-without slot (s ∷ rest) e = ground (arith, length-without slot rest)

pub length-read_again : (slot : ℕ) (order : List ℕ) → length (read_again slot order) ≡ length order
unfolding read_again
length-read_again slot order = elim (Bool-cases (contains slot order)) [
  | inl e ↦ rw e (length-append (without slot order) (slot ∷ []) ∙ length-without slot order e)
  | inr e ↦ rw e refl
]

pub All-read_again :
    (P : ℕ → Type 0) (slot : ℕ) (order : List ℕ) → All P order → All P (read_again slot order)
unfolding read_again
All-read_again P slot order all = elim (Bool-cases (contains slot order)) [
  | inl e ↦ rw e (
      All-append P (without slot order) (slot ∷ []) (All-without P slot order all)
        (contains-All P slot order all e, tt))
  | inr e ↦ rw e all
]
