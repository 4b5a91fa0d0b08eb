-- ===== src/Pending/Cache/Told.antt =====
-- pending/src/cache.rs: what a reader is told, and the invariant behind it.
use my_ledger.Common.{ℕ, ◌≡◌, true, false, Option, none, some, List}
use my_ledger.Common.Map.{Map, lookup, insert}
use my_ledger.Pending.Store.{ObjectId, Block, Outcome, done, failed, DurableStore}
use my_ledger.Pending.Cache.{Cached, Owed, keep, collect, release_waiters}
use my_ledger.Pending.Keyed.{Key, at_key}
use my_ledger.Pending.Cache.Coherent.{IsCoherent, keep-IsCoherent}
use my_ledger.Pending.Cache.Books.{Within, Books, keep-Books, collect-Books}

-- What `DurableStore` says of reads, for a store in which nothing is written meanwhile: a read brings the
-- bytes that the object has there, and a completion is that of a read which was submitted under its handle.
pub record ReadsFrom {S : Type 0} (content : Key → Option Block) (outstanding : S → Map Key)
    (store : DurableStore S) : Type 0 where
  pub reads :
      (s : S) (object : ObjectId) (offset : ℕ) (block : Block)
      → (store.read_at s object offset).1 ≡ done block
      → content (object, offset) ≡ some block
  pub reads_aside :
      (s : S) (object : ObjectId) (offset : ℕ)
      → outstanding (store.read_at s object offset).0 ≡ outstanding s
  pub takes :
      (s : S) (handle : ℕ) (object : ObjectId) (offset now : ℕ)
      → (store.submit s handle object offset now).1 ≡ true
      → outstanding (store.submit s handle object offset now).0
        ≡ insert handle (object, offset) (outstanding s)
  pub refuses :
      (s : S) (handle : ℕ) (object : ObjectId) (offset now : ℕ)
      → (store.submit s handle object offset now).1 ≡ false
      → outstanding (store.submit s handle object offset now).0 ≡ outstanding s
  pub completes :
      (s : S) (now handle : ℕ) (block : Block)
      → (store.poll s now).1 ≡ some (done (handle, block))
      → (key : Key) × (lookup handle (outstanding s) ≡ some key) × (content key ≡ some block)
  pub keeps : (s : S) (now : ℕ) → Within (outstanding (store.poll s now).0) (outstanding s)

module _ {S : Type 0} (content : Key → Option Block) (outstanding : S → Map Key)
    (store : DurableStore S) where
  pub record Inv (asked : Map Key) (c : Cached S) : Type 0 where
    pub slots : IsCoherent content c
    pub books : Books asked outstanding c

  -- A state of the store in which no other read is outstanding.
  pub moved-Inv :
      (asked : Map Key) (c : Cached S) (inner : S)
      → Inv asked c
      → Within (outstanding inner) asked
      → Inv asked (record c { inner = inner })
  moved-Inv asked c inner inv within = record {
    slots = record {
      roomy = inv.slots.roomy;
      fits = inv.slots.fits;
      bounded = inv.slots.bounded;
      claimed = inv.slots.claimed;
      coherent = inv.slots.coherent;
    };
    books = record {
      ready = inv.books.ready;
      waiting = inv.books.waiting;
      issued = inv.books.issued;
      below = within;
    };
  }

  pub keep-Inv :
      (asked : Map Key) (c : Cached S) (object : ObjectId) (offset : ℕ) (block : Block)
      → Inv asked c
      → content (object, offset) ≡ some block
      → Inv asked (keep c object offset block)
  keep-Inv asked c object offset block inv is = record {
    slots = keep-IsCoherent content c object offset block inv.slots is;
    books = keep-Books asked outstanding c object offset block inv.books;
  }

  pub collect-Inv :
      (asked : Map Key) (c : Cached S) (key : Key) (block : Block)
      → Inv asked c
      → content key ≡ some block
      → Inv asked (collect store c key block)
  collect-Inv asked c key block inv is = record {
    slots =
        released (keep c key.0 key.1 block) (at_key key (keep c key.0 key.1 block).waiting)
          (keep-IsCoherent content c key.0 key.1 block inv.slots is);
    books = collect-Books asked outstanding store c key block inv.books;
  }
    where
      released :
          (kept : Cached S) (found : Option (List Owed))
          → IsCoherent content kept
          → IsCoherent content (release_waiters store kept key found)
      released kept none ok = ok
      released kept (some waiters) ok = record {
        roomy = ok.roomy;
        fits = ok.fits;
        bounded = ok.bounded;
        claimed = ok.claimed;
        coherent = ok.coherent;
      }

  -- An answered read of a block.
  unfoldable pub Answers : Key → Outcome Block → Type 0
  Answers key (done block) = content key ≡ some block
  Answers key (failed fault) = Unit

  -- A completion names a handle, and brings the bytes of what was asked under it.
  unfoldable pub Tells : Map Key → Option (Outcome (ℕ × Block)) → Type 0
  Tells asked (some (done (handle, block))) =
      (key : Key) × (lookup handle asked ≡ some key) × (content key ≡ some block)
  Tells asked (some (failed fault)) = Unit
  Tells asked none = Unit
