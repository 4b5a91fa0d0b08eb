-- ===== src/Pending/Cache/Reads.antt =====
-- pending/src/cache.rs: a read and a completion keep the invariant and tell the truth.
use my_ledger.Common.{ℕ, ◌≡◌, refl, sym, subst, Option, none, some, List, [], ◌∷◌, All}
use my_ledger.Common.Map.{Map, lookup, remove}
use my_ledger.Pending.Store.{ObjectId, Block, Outcome, done, failed, DurableStore}
use my_ledger.Pending.Cache.{
  Cached, Owed, take_from_cache, read_at, read_after, read_below, poll, poll_from, poll_after,
  arrive, finished,
}
use my_ledger.Pending.Keyed.{Key}
use my_ledger.Pending.Cache.Coherent.{take_from_cache-content, take_from_cache-IsCoherent}
use my_ledger.Pending.Cache.Books.{Owes, Within, remove-Within, take_from_cache-Books}
use my_ledger.Pending.Cache.Told.{ReadsFrom, Inv, moved-Inv, keep-Inv, collect-Inv, Answers, Tells}

module _ {S : Type 0} (content : Key → Option Block) (outstanding : S → Map Key)
    (store : DurableStore S) where
  module _ (law : ReadsFrom content outstanding store) where
    read_after-lem :
        (asked : Map Key) (object : ObjectId) (offset : ℕ) (c : Cached S) (block : Option Block)
        → Inv content outstanding store asked c
        → ((b : Block) → block ≡ some b → content (object, offset) ≡ some b)
        → Inv content outstanding store asked (read_after store object offset (c, block)).0
          × Answers content outstanding store
              (object, offset)
              (read_after store object offset (c, block)).1
    unfolding Answers
    read_after-lem asked object offset c (some block) inv is = (inv, is block refl)
    read_after-lem asked object offset c none inv is =
        below (store.read_at c.inner object offset) (law.reads c.inner object offset)
          (law.reads_aside c.inner object offset)
      where
        within :
            (inner : S) → outstanding inner ≡ outstanding c.inner → Within (outstanding inner) asked
        within inner aside = subst (λ reads. Within reads asked) (sym aside) inv.books.below

        below :
            (read : S × Outcome Block)
            → ((b : Block) → read.1 ≡ done b → content (object, offset) ≡ some b)
            → outstanding read.0 ≡ outstanding c.inner
            → Inv content outstanding store asked (read_below store c object offset read).0
              × Answers content outstanding store
                  (object, offset)
                  (read_below store c object offset read).1
        below (inner, done block) brings aside = (
          keep-Inv content outstanding store asked (record c { inner = inner }) object offset block
              (moved-Inv content outstanding store asked c inner inv (within inner aside))
              (brings block refl),
          brings block refl,
        )
        below (inner, failed fault) brings aside =
            (moved-Inv content outstanding store asked c inner inv (within inner aside), tt)

    pub read_at-lem :
        (asked : Map Key) (c : Cached S) (object : ObjectId) (offset : ℕ)
        → Inv content outstanding store asked c
        → Inv content outstanding store asked (read_at store c object offset).0
          × Answers content outstanding store (object, offset) (read_at store c object offset).1
    unfolding read_at
    read_at-lem asked c object offset inv =
        read_after-lem asked object offset (take_from_cache c object offset).0
          (take_from_cache c object offset).1
          (record {
            slots = take_from_cache-IsCoherent content c object offset inv.slots;
            books = take_from_cache-Books asked outstanding c object offset inv.books;
          })
          (λ b e. take_from_cache-content content c object offset b inv.slots e)

    poll_after-lem :
        (asked : Map Key) (handle : ℕ) (key : Key) (read : Cached S × Outcome Block)
        → lookup handle asked ≡ some key
        → Inv content outstanding store asked read.0 × Answers content outstanding store key read.1
        → Inv content outstanding store asked (poll_after store handle read).0
          × Tells content outstanding store asked (poll_after store handle read).1
    unfolding Answers Tells
    poll_after-lem asked handle key (c, done block) is told = (told.0, (key, is, told.1))
    poll_after-lem asked handle key (c, failed fault) is told = (told.0, tt)

    finished-Inv :
        (asked : Map Key) (c : Cached S) (handle : ℕ) (found : Option Key) (block : Block)
        → lookup handle c.issued ≡ found
        → Inv content outstanding store asked c
        → (key : Key) → lookup handle asked ≡ some key
        → content key ≡ some block
        → Inv content outstanding store asked (finished store c handle found block)
    finished-Inv asked c handle none block here inv key is has = inv
    finished-Inv asked c handle (some issued) block here inv key is has =
        collect-Inv content outstanding store asked (record c { issued = remove handle c.issued })
          issued block
          (record {
            slots = record {
              roomy = inv.slots.roomy;
              fits = inv.slots.fits;
              bounded = inv.slots.bounded;
              claimed = inv.slots.claimed;
              coherent = inv.slots.coherent;
            };
            books = record {
              ready = inv.books.ready;
              waiting = inv.books.waiting;
              issued = remove-Within handle c.issued asked inv.books.issued;
              below = inv.books.below;
            };
          })
          (subst (λ k. content k ≡ some block) (same (inv.books.issued handle issued here)) has)
      where
        same : lookup handle asked ≡ some issued → key ≡ issued
        same issued_is = cc (is, issued_is)

    arrive-lem :
        (asked : Map Key) (c : Cached S) (polled : S × Option (Outcome (ℕ × Block)))
        → Inv content outstanding store asked c
        → ((handle : ℕ) (block : Block)
            → polled.1 ≡ some (done (handle, block))
            → (key : Key) × (lookup handle (outstanding c.inner) ≡ some key)
              × (content key ≡ some block))
        → Within (outstanding polled.0) (outstanding c.inner)
        → Inv content outstanding store asked (arrive store c polled).0
          × Tells content outstanding store asked (arrive store c polled).1
    unfolding Tells lookup
    arrive-lem asked c (inner, none) inv completes keeps = (
      moved-Inv content outstanding store asked c inner inv
          (λ h k e. inv.books.below h k (keeps h k e)),
      tt,
    )
    arrive-lem asked c (inner, some (failed fault)) inv completes keeps = (
      record {
        slots = record {
          roomy = inv.slots.roomy;
          fits = inv.slots.fits;
          bounded = inv.slots.bounded;
          claimed = inv.slots.claimed;
          coherent = inv.slots.coherent;
        };
        books = record {
          ready = inv.books.ready;
          waiting = tt;
          issued = λ h k e. absurd (cc e);
          below = λ h k e. inv.books.below h k (keeps h k e);
        };
      },
      tt,
    )
    arrive-lem asked c (inner, some (done (handle, block))) inv completes keeps =
        let told = completes handle block refl in
        let is = inv.books.below handle told.0 told.1 in
        (
          finished-Inv asked (record c { inner = inner }) handle (lookup handle c.issued) block refl
              (moved-Inv content outstanding store asked c inner inv
                (λ h k e. inv.books.below h k (keeps h k e)))
              told.0 is told.2,
          (told.0, is, told.2),
        )

    pub poll-lem :
        (asked : Map Key) (c : Cached S) (now : ℕ)
        → Inv content outstanding store asked c
        → Inv content outstanding store asked (poll store c now).0
          × Tells content outstanding store asked (poll store c now).1
    unfolding poll
    poll-lem asked c now inv = from c.ready refl
      where
        from :
            (ready : List Owed)
            → c.ready ≡ ready
            → Inv content outstanding store asked (poll_from store c ready now).0
              × Tells content outstanding store asked (poll_from store c ready now).1
        from [] is =
            arrive-lem asked c (store.poll c.inner now) inv (law.completes c.inner now)
              (law.keeps c.inner now)
        from (owed ∷ rest) is =
            let first = subst (All (Owes asked)) is inv.books.ready in
            poll_after-lem asked owed.handle (owed.object, owed.offset)
              (read_at store (record c { ready = rest }) owed.object owed.offset) first.0
              (read_at-lem asked (record c { ready = rest }) owed.object owed.offset
                (record {
                  slots = record {
                    roomy = inv.slots.roomy;
                    fits = inv.slots.fits;
                    bounded = inv.slots.bounded;
                    claimed = inv.slots.claimed;
                    coherent = inv.slots.coherent;
                  };
                  books = record {
                    ready = first.1;
                    waiting = inv.books.waiting;
                    issued = inv.books.issued;
                    below = inv.books.below;
                  };
                }))
