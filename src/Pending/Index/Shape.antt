-- ===== src/Pending/Index/Shape.antt =====
-- The table's shape: a power of two of buckets of four, which no operation changes, and within which both
-- buckets of every entry lie.
use Prim.Native.Nat.{bit_and}
use my_ledger.Common.{
  ℕ, zero, suc, ◌+◌, ◌<◌, ◌≤◌, ◌^◌, ◌≡◌, ◌≢◌, refl, ap, ◌∙◌, sym, arith, ◌==◌, if◌then◌else◌, List,
  [], length, get_or, set, All, sum_by, sum_by-set, length-set, All-set, All-get_or,
}
use my_ledger.Common.Bits.{bit_xor-lt, bit_xor-ne, bit_and-lt, bit_xor_twice, power_pos}
use my_ledger.Base.Ids.{TxId}
use my_ledger.Pending.Index.Cascade.{Hasher, alternate, home_of}
use my_ledger.Pending.Index.Word.{Slot, empty}
use my_ledger.Pending.Index.{
  HoldTable, Bucket, Place, slot_word, set_slot, set_word, keep_copy, count_out, count_in,
}

abbrev pub total : (Slot → ℕ) → List Bucket → ℕ
total weight = sum_by (sum_by weight)

abbrev pub IsBucket : Bucket → Type 0
IsBucket bucket = length bucket ≡ 4

pub record IsSized (t : HoldTable) : Type 0 where
  pub width : ℕ
  pub two_or_more : 1 ≤ width
  pub counted : length t.buckets ≡ 2 ^ width
  pub masked : suc t.mask ≡ 2 ^ width
  pub narrow : length t.buckets ≤ 2 ^ 32
  pub four_each : All IsBucket t.buckets

abbrev pub IsPlace : HoldTable → Place → Type 0
IsPlace t at = (at.0 < length t.buckets) × (at.1 < 4)

pub buckets-keep_copy : (t : HoldTable) (b : ℕ) → (keep_copy t b).buckets ≡ t.buckets
buckets-keep_copy t b = ground arith

pub buckets-count_out : (t : HoldTable) (w : Slot) → (count_out t w).buckets ≡ t.buckets
buckets-count_out t w = ground arith

pub buckets-count_in : (t : HoldTable) (w : Slot) → (count_in t w).buckets ≡ t.buckets
buckets-count_in t w = ground arith

pub buckets-set_slot :
    (t : HoldTable) (at : Place) (w : Slot) → (set_slot t at w).0.buckets ≡ set_word t.buckets at w
unfolding set_slot
buckets-set_slot t at w =
    ap (λ bs. set_word bs at w)
      (buckets-count_in (count_out (keep_copy t at.0) (slot_word t at)) w
        ∙ buckets-count_out (keep_copy t at.0) (slot_word t at)
        ∙ buckets-keep_copy t at.0)

mask-keep_copy : (t : HoldTable) (b : ℕ) → (keep_copy t b).mask ≡ t.mask
mask-keep_copy t b = ground arith

mask-count_out : (t : HoldTable) (w : Slot) → (count_out t w).mask ≡ t.mask
mask-count_out t w = ground arith

mask-count_in : (t : HoldTable) (w : Slot) → (count_in t w).mask ≡ t.mask
mask-count_in t w = ground arith

pub mask-set_slot : (t : HoldTable) (at : Place) (w : Slot) → (set_slot t at w).0.mask ≡ t.mask
unfolding set_slot
mask-set_slot t at w =
    mask-count_in (count_out (keep_copy t at.0) (slot_word t at)) w
    ∙ mask-count_out (keep_copy t at.0) (slot_word t at)
    ∙ mask-keep_copy t at.0

pub total-set_word :
    (weight : Slot → ℕ) (t : HoldTable) (at : Place) (w : Slot)
    → IsPlace t at
    → All IsBucket t.buckets
    → total weight (set_word t.buckets at w) + weight (slot_word t at)
      ≡ total weight t.buckets + weight w
unfolding slot_word
total-set_word weight t (b, way) w inside four =
    let bucket = get_or t.buckets b [] in
    omega (
      arith,
      sum_by-set (sum_by weight) t.buckets b (set bucket way w) [] inside.0,
      sum_by-set weight bucket way w empty
          (rw (All-get_or IsBucket t.buckets b [] four inside.0) inside.1),
    )

pub length-set_slot :
    (t : HoldTable) (at : Place) (w : Slot) → length (set_slot t at w).0.buckets ≡ length t.buckets
length-set_slot t at w = ap length (buckets-set_slot t at w) ∙ length-set t.buckets at.0 _

pub set_slot-IsSized :
    (t : HoldTable) (at : Place) (w : Slot)
    → at.0 < length t.buckets
    → IsSized t
    → IsSized (set_slot t at w).0
set_slot-IsSized t at w inside s = record {
  width = s.width;
  two_or_more = s.two_or_more;
  counted = length-set_slot t at w ∙ s.counted;
  masked = ap suc (mask-set_slot t at w) ∙ s.masked;
  narrow = rw (length-set_slot t at w) s.narrow;
  four_each = rw (buckets-set_slot t at w) (
      All-set IsBucket t.buckets at.0 (set (get_or t.buckets at.0 []) at.1 w)
        (length-set (get_or t.buckets at.0 []) at.1 w
          ∙ All-get_or IsBucket t.buckets at.0 [] s.four_each inside)
        s.four_each);
}

-- Both buckets of an entry are the table's, and each is the other's other.
module _ (h : Hasher) where
  step-lt : (k step : ℕ) → 1 ≤ k → step < 2 ^ k → (if step == 0 then 1 else step) < 2 ^ k
  step-lt zero step p q = absurd (omega arith)
  step-lt (suc k) step p q = ground (arith, power_pos k)

  pub alternate-lt :
      (t : HoldTable) (bucket fingerprint : ℕ)
      → IsSized t
      → bucket < length t.buckets
      → alternate h t bucket fingerprint < length t.buckets
  unfolding alternate
  alternate-lt t bucket fingerprint s inside =
      let step = bit_and (h.of_fingerprint fingerprint) t.mask in
      rw s.counted (
        bit_xor-lt s.width bucket _ (rw (← s.counted) inside) (
          step-lt s.width step s.two_or_more
            (bit_and-lt s.width (h.of_fingerprint fingerprint) t.mask (omega (arith, s.masked)))))

  pub home_of-lt : (t : HoldTable) (key : TxId) → IsSized t → home_of h t key < length t.buckets
  unfolding home_of
  home_of-lt t key s =
      rw s.counted (bit_and-lt s.width (h.of_key key) t.mask (omega (arith, s.masked)))

  pub alternate_twice :
      (t : HoldTable) (bucket fingerprint : ℕ)
      → alternate h t (alternate h t bucket fingerprint) fingerprint ≡ bucket
  unfolding alternate
  alternate_twice t bucket fingerprint = bit_xor_twice bucket _

  pub alternate-ne :
      (t : HoldTable) (bucket fingerprint : ℕ) → bucket ≢ alternate h t bucket fingerprint
  unfolding alternate
  alternate-ne t bucket fingerprint e =
      bit_xor-ne bucket _ (nonzero (bit_and (h.of_fingerprint fingerprint) t.mask)) (sym e)
    where
      nonzero : (step : ℕ) → (if step == 0 then 1 else step) ≢ 0
      nonzero step = ground arith

  pub home_of-mask :
      (t t' : HoldTable) (key : TxId) → t'.mask ≡ t.mask → home_of h t' key ≡ home_of h t key
  unfolding home_of
  home_of-mask t t' key same = rw same refl

  pub alternate-mask :
      (t t' : HoldTable) (b f : ℕ) → t'.mask ≡ t.mask → alternate h t' b f ≡ alternate h t b f
  unfolding alternate
  alternate-mask t t' b f same = rw same refl
