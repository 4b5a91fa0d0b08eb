-- ===== src/Examples/Cache.antt =====
-- The cache over a small store, which holds a block of two bytes at every offset.
use my_ledger.Common.{
  ℕ, ◌≡◌, refl, ap, length, arith, Bool, true, Option, none, some, [], ◌∷◌, ◌==◌, ◌<◌,
}
use my_ledger.Common.Map.{Map, lookup, insert, remove}
use my_ledger.Pending.Store.{Block, Outcome, done, failed, DurableStore}
use my_ledger.Pending.Cache.{
  Cached, cached_new, take_from_cache, keep, forget, read_at, submit, poll,
}
use my_ledger.Pending.Keyed.{at_key, put_key, drop_key, Key}
use my_ledger.Pending.Cache.Books.{Within, remove-Within}
use my_ledger.Pending.Cache.Clash.{take_from_cache-keep-forget}
use my_ledger.Pending.Cache.History.{Run, start, submits, polls, asked_after, Run-Answers}
use my_ledger.Pending.Cache.Told.{ReadsFrom, Answers, Tells}

abbrev contents : Key → Option Block
contents key = some (key.0 ∷ key.1 ∷ [])

abbrev waiting_reads : Map Key → Map Key
waiting_reads s = s

abbrev next_read : Map Key → Map Key × Option (Outcome (ℕ × Block))
next_read [] = ([], none)
next_read ((handle, key) ∷ rest) =
    (remove handle ((handle, key) ∷ rest), some (done (handle, key.0 ∷ key.1 ∷ [])))

abbrev shelf : DurableStore (Map Key)
shelf = record {
  submit_write = λ s handle object offset block creating now. (s, true);
  read_at = λ s object offset. (s, done (object ∷ offset ∷ []));
  submit = λ s handle object offset now. (insert handle (object, offset) s, true);
  poll = λ s now. next_read s;
  inflight = λ s. 0;
  submit_remove = λ s handle object now. (s, true);
  submit_rename = λ s handle from to now. (s, true);
}

abbrev read_block : Outcome Block → Option Block
read_block (done block) = some block
read_block (failed fault) = none

shelf-completes :
    (s : Map Key) (handle : ℕ) (block : Block)
    → (next_read s).1 ≡ some (done (handle, block))
    → (key : Key) × (lookup handle s ≡ some key) × (contents key ≡ some block)
unfolding lookup
shelf-completes [] handle block e = absurd (cc e)
shelf-completes ((h, key) ∷ rest) handle block e =
    (key, rw (handle_matches (ap handle_in e)) refl, ap block_in e)
  where
    handle_in : Option (Outcome (ℕ × Block)) → ℕ
    handle_in none = 0
    handle_in (some (failed fault)) = 0
    handle_in (some (done (handle, block))) = handle

    block_in : Option (Outcome (ℕ × Block)) → Option Block
    block_in none = none
    block_in (some (failed fault)) = none
    block_in (some (done (handle, block))) = some block

    handle_matches : h ≡ handle → (h == handle) ≡ true
    handle_matches same = ground (arith, same)

shelf-keeps : (s : Map Key) → Within (next_read s).0 s
shelf-keeps [] = λ h k e. e
shelf-keeps ((handle, key) ∷ rest) =
    remove-Within handle ((handle, key) ∷ rest) ((handle, key) ∷ rest) (λ h k e. e)

shelf-ReadsFrom : ReadsFrom contents waiting_reads shelf
shelf-ReadsFrom = record {
  reads = λ s object offset block e. ap read_block e;
  reads_aside = λ s object offset. refl;
  takes = λ s handle object offset now e. refl;
  refuses = λ s handle object offset now e. absurd (cc e);
  completes = λ s now handle block e. shelf-completes s handle block e;
  keeps = λ s now. shelf-keeps s;
}

-- Two readers of one block, in a cache of one block: the second joins the first.
abbrev first_asked : Cached (Map Key) × Bool
first_asked = submit shelf (cached_new [] 1) 1 3 0 0

abbrev both_asked : Cached (Map Key) × Bool
both_asked = submit shelf first_asked.0 2 3 0 0

abbrev first_told : Cached (Map Key)
first_told = (poll shelf both_asked.0 0).0

abbrev handles : Map Key
handles = asked_after (asked_after [] 1 (3, 0) first_asked.1) 2 (3, 0) both_asked.1

new_handle : lookup 2 (asked_after [] 1 (3, 0) first_asked.1) ≡ none
unfolding lookup insert submit cached_new at_key put_key
new_handle = refl

first_told-Run : Run contents waiting_reads shelf 1 handles first_told
unfolding lookup
first_told-Run = polls 0 (submits 2 3 0 0 (submits 1 3 0 0 (start [] refl) refl) new_handle)

second_told : (poll shelf first_told 0).1 ≡ some (done (2, 3 ∷ 0 ∷ []))
unfolding lookup insert remove submit cached_new at_key put_key drop_key poll keep take_from_cache
    read_at
second_told = refl

Run-Answers_example :
    Answers contents waiting_reads shelf (5, 8) (read_at shelf first_told 5 8).1
    × Tells contents waiting_reads shelf handles (poll shelf first_told 0).1
Run-Answers_example =
    Run-Answers contents waiting_reads shelf shelf-ReadsFrom 1 handles first_told 5 8 0
      first_told-Run

-- A block of each of two objects in a cache of three.
abbrev two_held : Cached (Map Key)
two_held = keep (keep (cached_new [] 3) 1 0 (1 ∷ 0 ∷ [])) 2 0 (2 ∷ 0 ∷ [])

two_held-held : two_held.held ≡ ((1, 0), 0) ∷ ((2, 0), 1) ∷ []
unfolding keep cached_new at_key put_key
two_held-held = refl

two_held-order : two_held.order ≡ 0 ∷ 1 ∷ []
unfolding keep cached_new at_key put_key
two_held-order = refl

two_held-roomy : length two_held.slots ≡ two_held.blocks
unfolding keep cached_new at_key put_key
two_held-roomy = refl

two_held-room : 2 < two_held.blocks
unfolding keep cached_new at_key put_key
two_held-room = omega arith

take_from_cache-keep-forget_example :
    (take_from_cache (keep (forget two_held 1) 4 0 (4 ∷ 0 ∷ [])) 2 0).1 ≡ some (4 ∷ 0 ∷ [])
take_from_cache-keep-forget_example =
    take_from_cache-keep-forget two_held (1, 0) (2, 0) (4, 0) (4 ∷ 0 ∷ []) two_held-held
      two_held-order two_held-roomy two_held-room (omega arith) refl
