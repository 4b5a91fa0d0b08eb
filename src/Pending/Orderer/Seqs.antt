-- ===== src/Pending/Orderer/Seqs.antt =====
-- pending/src/orderer.rs: the seqs a lane reserves, as the sequencer numbers them.
use my_ledger.Common.{
  ℕ, zero, suc, ◌+◌, ◌≡◌, ◌≢◌, sym, ap, ◌∙◌, arith, List, [], ◌∷◌, ◌++◌, ◌⊎◌, inl, inr, push_back,
}
use my_ledger.Base.Ids.{Seq}

-- `n` seqs from one on.
unfoldable pub seqs_from : Seq → ℕ → List Seq
seqs_from next zero = []
seqs_from next (suc n) = next ∷ seqs_from (next + 1) n

unfoldable pub last_from : Seq → List Seq → Seq
last_from seq [] = seq
last_from seq (later ∷ rest) = last_from later rest

-- What the sequencer sends a lane: the seq after the last one, or any, once all of it has left.
abbrev pub Follows : List Seq → List Seq → Seq → Type 0
Follows reserved left seq = (reserved ≡ left) ⊎ (seq ≡ last_from 0 reserved + 1)

last_from-run :
    (left : List Seq) (seq next n : ℕ) → last_from seq (left ++ seqs_from next (suc n)) ≡ next + n
unfolding last_from seqs_from
last_from-run [] seq next zero = ground arith
last_from-run [] seq next (suc n) = last_from-run [] next (next + 1) n ∙ ground arith
last_from-run (l ∷ left) seq next n = last_from-run left l next n

pub push_back-seqs_from :
    (next n : ℕ) → push_back (seqs_from next n) (next + n) ≡ seqs_from next (suc n)
unfolding seqs_from
push_back-seqs_from next zero = ap (λ s. s ∷ []) (ground arith)
push_back-seqs_from next (suc n) =
    ap (λ rest. next ∷ rest)
      (ap (λ s. push_back (seqs_from (next + 1) n) s) (ground arith)
        ∙ push_back-seqs_from (next + 1) n)

no_waiting : (left : List Seq) (next n : ℕ) → left ≢ left ++ seqs_from next (suc n)
unfolding seqs_from
no_waiting [] next n e = cc e
no_waiting (l ∷ left) next n e = no_waiting left next n (cc e)

-- Where seqs wait, the one that follows is the next after them.
pub Follows-next :
    (reserved left : List Seq) (seq next n : ℕ)
    → reserved ≡ left ++ seqs_from next (suc n)
    → Follows reserved left seq
    → seq ≡ next + suc n
Follows-next reserved left seq next n splits (inl all_left) =
    absurd (no_waiting left next n (sym all_left ∙ splits))
Follows-next reserved left seq next n splits (inr e) =
    e ∙ rw splits (rw (last_from-run left 0 next n) (ground arith))
