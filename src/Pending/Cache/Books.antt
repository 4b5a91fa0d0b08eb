-- ===== src/Pending/Cache/Books.antt =====
-- pending/src/cache.rs: the reads that are owed, and who asked for them.
use my_ledger.Common.{
  ℕ, ◌≡◌, refl, sym, subst, ◌∙◌, Bool, Option, none, some, List, [], ◌∷◌, ◌==◌, ==_iff,
  if◌then◌else◌, length, is_some, All, All-append, Bool-cases, inl, inr, either_branch, leb,
}
use my_ledger.Common.Map.{Map, lookup, insert, remove, lookup-insert, lookup-remove}
use my_ledger.Pending.Store.{ObjectId, Block, DurableStore}
use my_ledger.Pending.Cache.{
  Cached, Owed, take_slot, take_from_cache, keep_evicting, keep, collect, release_waiters,
}
use my_ledger.Pending.Keyed.{Key, KeyMap, eqb_key, at_key, drop_key}
use my_ledger.Pending.Cache.Slots.{at_key-All}

-- Who is owed what: the handle was given for that block.
abbrev pub Owes : Map Key → Owed → Type 0
Owes asked owed = lookup owed.handle asked ≡ some (owed.object, owed.offset)

abbrev pub Within : Map Key → Map Key → Type 0
Within some_of all_of =
    (handle : ℕ) (key : Key) → lookup handle some_of ≡ some key → lookup handle all_of ≡ some key

-- Every read the cache still owes was asked for.
pub record Books (asked : Map Key) {S : Type 0} (outstanding : S → Map Key) (c : Cached S)
    : Type 0 where
  pub ready : All (Owes asked) c.ready
  pub waiting : All (λ e. All (Owes asked) e.1) c.waiting
  pub issued : Within c.issued asked
  pub below : Within (outstanding c.inner) asked

pub Within-insert :
    (handle : ℕ) (key : Key) (asked : Map Key)
    → lookup handle asked ≡ none
    → Within asked (insert handle key asked)
Within-insert handle key asked fresh other k e =
    rw (lookup-insert handle other key asked) (elim (Bool-cases (handle == other)) [
      | inl same ↦ absurd (cc (fresh, e, (==_iff handle other).0 same))
      | inr apart ↦ rw apart e
    ])

pub insert-Within :
    (handle : ℕ) (key : Key) (some_of all_of : Map Key)
    → lookup handle all_of ≡ some key
    → Within some_of all_of
    → Within (insert handle key some_of) all_of
insert-Within handle key some_of all_of is within other k e = elim (Bool-cases (handle == other)) [
  | inl same ↦ cc (is, (==_iff handle other).0 same, subst (branch (some key)) same found)
  | inr apart ↦ within other k (subst (branch (some key)) apart found)
]
  where
    branch : Option Key → Bool → Type 0
    branch here b = (if b then here else lookup other some_of) ≡ some k

    found : branch (some key) (handle == other)
    found = sym (lookup-insert handle other key some_of) ∙ e

pub remove-Within :
    (handle : ℕ) (some_of all_of : Map Key)
    → Within some_of all_of
    → Within (remove handle some_of) all_of
remove-Within handle some_of all_of within other k e = elim (Bool-cases (handle == other)) [
  | inl same ↦ absurd (cc (subst branch same found))
  | inr apart ↦ within other k (subst branch apart found)
]
  where
    branch : Bool → Type 0
    branch b = (if b then none else lookup other some_of) ≡ some k

    found : branch (handle == other)
    found = sym (lookup-remove handle other some_of) ∙ e

All-drop_key :
    {V : Type 0} (P : Key × V → Type 0) (key : Key) (m : KeyMap V)
    → All P m
    → All P (drop_key key m)
unfolding drop_key
All-drop_key P key [] all = tt
All-drop_key P key ((k, v) ∷ rest) all =
    either_branch (All P) (eqb_key k key) _ _ (All-drop_key P key rest all.1)
      (all.0, All-drop_key P key rest all.1)

module _ (asked : Map Key) {S : Type 0} (outstanding : S → Map Key) where
  pub keep-Books :
      (c : Cached S) (object : ObjectId) (offset : ℕ) (block : Block)
      → Books asked outstanding c
      → Books asked outstanding (keep c object offset block)
  unfolding keep
  keep-Books c object offset block books =
      either_branch (Books asked outstanding) (c.blocks == 0) _ _ books (
        either_branch (Books asked outstanding) (is_some (at_key (object, offset) c.held)) _ _ books
          (either_branch (Books asked outstanding) (leb c.blocks (length c.order)) _ _
            (evicting c.order)
            (record {
              ready = books.ready;
              waiting = books.waiting;
              issued = books.issued;
              below = books.below;
            })))
    where
      evicting :
          (order : List ℕ) → Books asked outstanding (keep_evicting c (object, offset) order block)
      evicting [] = books
      evicting (oldest ∷ rest) = record {
        ready = books.ready;
        waiting = books.waiting;
        issued = books.issued;
        below = books.below;
      }

  pub take_from_cache-Books :
      (c : Cached S) (object : ObjectId) (offset : ℕ)
      → Books asked outstanding c
      → Books asked outstanding (take_from_cache c object offset).0
  unfolding take_from_cache
  take_from_cache-Books c object offset books = taken (at_key (object, offset) c.held)
    where
      taken : (found : Option ℕ) → Books asked outstanding (take_slot c found).0
      taken none = books
      taken (some slot) = record {
        ready = books.ready;
        waiting = books.waiting;
        issued = books.issued;
        below = books.below;
      }

  -- A block that came back is kept, and those who wait for it become ready.
  pub collect-Books :
      (store : DurableStore S) (c : Cached S) (key : Key) (block : Block)
      → Books asked outstanding c
      → Books asked outstanding (collect store c key block)
  collect-Books store c key block books =
      released (keep c key.0 key.1 block) (keep-Books c key.0 key.1 block books)
    where
      joined :
          (kept : Cached S) (found : Option (List Owed))
          → at_key key kept.waiting ≡ found
          → Books asked outstanding kept
          → Books asked outstanding (release_waiters store kept key found)
      joined kept none here books = books
      joined kept (some waiters) here books = record {
        ready =
            All-append (Owes asked) kept.ready waiters books.ready
              (at_key-All (λ e. All (Owes asked) e.1) key waiters kept.waiting books.waiting here);
        waiting = All-drop_key (λ e. All (Owes asked) e.1) key kept.waiting books.waiting;
        issued = books.issued;
        below = books.below;
      }

      released :
          (kept : Cached S)
          → Books asked outstanding kept
          → Books asked outstanding (release_waiters store kept key (at_key key kept.waiting))
      released kept books = joined kept (at_key key kept.waiting) refl books
