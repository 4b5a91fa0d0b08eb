-- ===== src/Pending/Cache/History.antt =====
-- pending/src/cache.rs: any sequence of reads through the cache, over a store in which nothing is written.
use my_ledger.Common.{
  ℕ, ◌≡◌, refl, sym, subst, inc_word, arith, Bool, true, false, Option, none, some, List, [], ◌∷◌,
  if◌then◌else◌, push_back, is_some, All, All-append, either_branch,
}
use my_ledger.Common.Map.{Map, lookup, insert, lookup-insert}
use my_ledger.Pending.Store.{ObjectId, Block, DurableStore}
use my_ledger.Pending.Cache.{Cached, Owed, cached_new, read_at, submit, join, issue, poll}
use my_ledger.Pending.Keyed.{Key, at_key, put_key}
use my_ledger.Pending.Cache.Books.{Owes, Within, Books, Within-insert, insert-Within}
use my_ledger.Pending.Cache.Told.{ReadsFrom, Inv, Answers, Tells}
use my_ledger.Pending.Cache.Reads.{read_at-lem, poll-lem}
use my_ledger.Pending.Cache.Coherent.{IsCoherent, cached_new-IsCoherent}
use my_ledger.Pending.Cache.Slots.{All-put_key, All-imp, at_key-All}

-- What has been asked for once a submission is over.
abbrev pub asked_after : Map Key → ℕ → Key → Bool → Map Key
asked_after asked handle key taken = if taken then insert handle key asked else asked

lookup-insert_self :
    (handle : ℕ) (key : Key) (asked : Map Key) → lookup handle (insert handle key asked) ≡ some key
lookup-insert_self handle key asked = rw (lookup-insert handle handle key asked) (ground arith)

module _ {S : Type 0} (content : Key → Option Block) (outstanding : S → Map Key)
    (store : DurableStore S) where
  same_slots :
      (c : Cached S) (inner : S) (ready : List Owed) (issued : Map Key)
      (waiting : List (Key × List Owed)) (joined : ℕ)
      → IsCoherent content c
      → IsCoherent content (record c {
        inner = inner;
        ready = ready;
        issued = issued;
        waiting = waiting;
        joined = joined;
      })
  same_slots c inner ready issued waiting joined ok = record {
    roomy = ok.roomy;
    fits = ok.fits;
    bounded = ok.bounded;
    claimed = ok.claimed;
    coherent = ok.coherent;
  }

  -- A handle that nobody has used.
  grown-Books :
      (asked : Map Key) (c : Cached S) (handle : ℕ) (key : Key)
      → lookup handle asked ≡ none
      → Books asked outstanding c
      → Books (insert handle key asked) outstanding c
  grown-Books asked c handle key fresh books = record {
    ready = owes c.ready books.ready;
    waiting =
        All-imp (λ e. All (Owes asked) e.1) (λ e. All (Owes (insert handle key asked)) e.1)
          c.waiting (λ e all. owes e.1 all) books.waiting;
    issued = λ h k e. more h k (books.issued h k e);
    below = λ h k e. more h k (books.below h k e);
  }
    where
      more : Within asked (insert handle key asked)
      more = Within-insert handle key asked fresh

      owes : (list : List Owed) → All (Owes asked) list → All (Owes (insert handle key asked)) list
      owes list all =
          All-imp (Owes asked) (Owes (insert handle key asked)) list
            (λ o is. more o.handle (o.object, o.offset) is) all

  module _ (law : ReadsFrom content outstanding store) where
    submit-Inv :
        (asked : Map Key) (c : Cached S) (handle : ℕ) (object : ObjectId) (offset now : ℕ)
        → lookup handle asked ≡ none
        → Inv content outstanding store asked c
        → Inv content outstanding store
            (asked_after asked handle (object, offset) (submit store c handle object offset now).1)
            (submit store c handle object offset now).0
    unfolding submit
    submit-Inv asked c handle object offset now fresh inv =
        either_branch Q (is_some (at_key key c.held)) _ _
          (record {
            slots =
                same_slots c c.inner (push_back c.ready owed) c.issued c.waiting c.joined inv.slots;
            books = record {
              ready = All-append (Owes grown) c.ready (owed ∷ []) books.ready (is_owed, tt);
              waiting = books.waiting;
              issued = books.issued;
              below = books.below;
            };
          })
          (joins (at_key key c.waiting) refl)
      where
        key : Key
        key = (object, offset)

        owed : Owed
        owed = record { handle = handle; object = object; offset = offset }

        grown : Map Key
        grown = insert handle key asked

        Q : Cached S × Bool → Type 0
        Q result = Inv content outstanding store (if result.1 then grown else asked) result.0

        books : Books grown outstanding c
        books = grown-Books asked c handle key fresh inv.books

        is_owed : lookup handle grown ≡ some key
        is_owed = lookup-insert_self handle key asked

        issues :
            (below : S × Bool)
            → (below.1 ≡ true → outstanding below.0 ≡ insert handle key (outstanding c.inner))
            → (below.1 ≡ false → outstanding below.0 ≡ outstanding c.inner)
            → Q (issue store c handle object offset below)
        issues (inner, true) takes refuses = record {
          slots =
              same_slots c inner c.ready (insert handle key c.issued) (put_key key [] c.waiting)
                c.joined inv.slots;
          books = record {
            ready = books.ready;
            waiting = All-put_key (λ e. All (Owes grown) e.1) key [] c.waiting tt books.waiting;
            issued = insert-Within handle key c.issued grown is_owed books.issued;
            below =
                subst (λ reads. Within reads grown) (sym (takes refl))
                  (insert-Within handle key (outstanding c.inner) grown is_owed books.below);
          };
        }
        issues (inner, false) takes refuses = record {
          slots = same_slots c inner c.ready c.issued c.waiting c.joined inv.slots;
          books = record {
            ready = inv.books.ready;
            waiting = inv.books.waiting;
            issued = inv.books.issued;
            below = subst (λ reads. Within reads asked) (sym (refuses refl)) inv.books.below;
          };
        }

        joins :
            (found : Option (List Owed))
            → at_key key c.waiting ≡ found
            → Q (join store c handle object offset now found)
        joins none here =
            issues (store.submit c.inner handle object offset now)
              (law.takes c.inner handle object offset now)
              (law.refuses c.inner handle object offset now)
        joins (some waiters) here = record {
          slots =
              same_slots c c.inner c.ready c.issued (put_key key (push_back waiters owed) c.waiting)
                (inc_word 64 c.joined) inv.slots;
          books = record {
            ready = books.ready;
            waiting =
                All-put_key (λ e. All (Owes grown) e.1) key (push_back waiters owed) c.waiting
                  (All-append (Owes grown) waiters (owed ∷ [])
                    (at_key-All (λ e. All (Owes grown) e.1) key waiters c.waiting books.waiting
                      here)
                    (is_owed, tt))
                  books.waiting;
            issued = books.issued;
            below = books.below;
          };
        }

  -- A cache over a store that has no read outstanding, and the handles that reads were asked under.
  pub data Run (blocks : ℕ) : Map Key → Cached S → Type 0 where
    start : (inner : S) → outstanding inner ≡ [] → Run blocks [] (cached_new inner blocks)
    reads :
        {asked : Map Key} {c : Cached S} (object : ObjectId) (offset : ℕ)
        → Run blocks asked c
        → Run blocks asked (read_at store c object offset).0
    submits :
        {asked : Map Key} {c : Cached S} (handle : ℕ) (object : ObjectId) (offset now : ℕ)
        → Run blocks asked c
        → lookup handle asked ≡ none
        → Run blocks
            (asked_after asked handle (object, offset) (submit store c handle object offset now).1)
            (submit store c handle object offset now).0
    polls :
        {asked : Map Key} {c : Cached S} (now : ℕ)
        → Run blocks asked c
        → Run blocks asked (poll store c now).0

  module _ (law : ReadsFrom content outstanding store) where
    Run-Inv :
        (blocks : ℕ) (asked : Map Key) (c : Cached S)
        → Run blocks asked c
        → Inv content outstanding store asked c
    unfolding cached_new lookup
    Run-Inv blocks _ _ (start inner idle) = record {
      slots = cached_new-IsCoherent content inner blocks;
      books = record {
        ready = tt;
        waiting = tt;
        issued = λ h k e. e;
        below = subst (λ reads. Within reads []) (sym idle) (λ h k e. e);
      };
    }
    Run-Inv blocks _ _ (reads {asked} {c} object offset run) =
        (read_at-lem content outstanding store law asked c object offset
          (Run-Inv blocks asked c run)).0
    Run-Inv blocks _ _ (submits {asked} {c} handle object offset now run fresh) =
        submit-Inv law asked c handle object offset now fresh (Run-Inv blocks asked c run)
    Run-Inv blocks _ _ (polls {asked} {c} now run) =
        (poll-lem content outstanding store law asked c now (Run-Inv blocks asked c run)).0

    -- A cache of any size, over a store whose reads bring its content and in which nothing is written
    -- meanwhile, after any reads, submissions under new handles and completions: the next block that a
    -- read brings is the content of that block, and the next completion names a handle under which a
    -- read was asked for, and brings the content of what was asked. It does not matter whether the block
    -- was held, evicted before the completion was collected, or on its way down for somebody else.
    pub Run-Answers :
        (blocks : ℕ) (asked : Map Key) (c : Cached S) (object : ObjectId) (offset now : ℕ)
        → Run blocks asked c
        → Answers content outstanding store (object, offset) (read_at store c object offset).1
          × Tells content outstanding store asked (poll store c now).1
    Run-Answers blocks asked c object offset now run = (
      (read_at-lem content outstanding store law asked c object offset
          (Run-Inv blocks asked c run)).1,
      (poll-lem content outstanding store law asked c now (Run-Inv blocks asked c run)).1,
    )
