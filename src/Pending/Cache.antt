-- ===== src/Pending/Cache.antt =====
-- pending/src/cache.rs, `Cached`: a store that answers a read from the last blocks it read.
pub mod Books
pub mod Clash
pub mod Coherent
pub mod History
pub mod Reads
pub mod Slots
pub mod Told
use my_ledger.Common.{
  ℕ, zero, suc, ◌+◌, ◌≤◌, Bool, true, false, not, ◌&&◌, Option, none, some, List, [], ◌∷◌, ◌++◌,
  ◌==◌, leb, if◌then◌else◌, inc_word, length, get_or, set, replicate, push_back, is_some,
}
use my_ledger.Common.Map.{Map, lookup, insert, remove}
use my_ledger.Pending.Keyed.{Key, KeyMap, eqb_key, at_key, put_key, drop_key}
use my_ledger.Pending.Store.{ObjectId, Block, zeroed, Outcome, done, failed, DurableStore}

-- A read the caller is owed.
pub record Owed : Type 0 where
  pub handle : ℕ
  pub object : ObjectId
  pub offset : ℕ

pub record Cached (S : Type 0) : Type 0 where
  pub inner : S
  pub slots : List Block
  pub held : KeyMap ℕ
  pub order : List ℕ
  pub blocks : ℕ
  pub ready : List Owed
  pub issued : Map Key
  pub waiting : KeyMap (List Owed)
  pub hits : ℕ
  pub joined : ℕ

unfoldable pub contains : ℕ → List ℕ → Bool
contains slot [] = false
contains slot (s ∷ rest) = if s == slot then true else contains slot rest

-- `VecDeque::remove` at the first position of a slot.
unfoldable pub without : ℕ → List ℕ → List ℕ
without slot [] = []
without slot (s ∷ rest) = if s == slot then rest else s ∷ without slot rest

unfoldable pub read_again : ℕ → List ℕ → List ℕ
read_again slot order = if contains slot order then push_back (without slot order) slot else order

-- `held.retain`: the claims on one slot go.
unfoldable pub free_slot : ℕ → KeyMap ℕ → KeyMap ℕ
free_slot slot [] = []
free_slot slot ((k, at) ∷ rest) =
    let others = free_slot slot rest in if at == slot then others else (k, at) ∷ others

-- The claims of one object go.
unfoldable pub free_object : ObjectId → KeyMap ℕ → KeyMap ℕ
free_object object [] = []
free_object object ((k, at) ∷ rest) =
    let others = free_object object rest in if k.0 == object then others else (k, at) ∷ others

unfoldable pub slots_of : ObjectId → KeyMap ℕ → List ℕ
slots_of object [] = []
slots_of object ((k, at) ∷ rest) =
    let others = slots_of object rest in if k.0 == object then at ∷ others else others

unfoldable pub without_all : List ℕ → List ℕ → List ℕ
without_all dropped [] = []
without_all dropped (slot ∷ rest) =
    let others = without_all dropped rest in if contains slot dropped then others else slot ∷ others

module _ {S : Type 0} where
  unfoldable pub cached_new : S → ℕ → Cached S
  cached_new inner blocks = record {
    inner = inner;
    slots = replicate blocks zeroed;
    held = [];
    order = [];
    blocks = blocks;
    ready = [];
    issued = [];
    waiting = [];
    hits = 0;
    joined = 0;
  }

  abbrev pub take_slot : Cached S → Option ℕ → Cached S × Option Block
  take_slot c none = (c, none)
  take_slot c (some slot) = (
    record c { hits = inc_word 64 c.hits; order = read_again slot c.order },
    some (get_or c.slots slot zeroed),
  )

  -- The block where the code fills the caller's and answers true.
  unfoldable pub take_from_cache : Cached S → ObjectId → ℕ → Cached S × Option Block
  take_from_cache c object offset = take_slot c (at_key (object, offset) c.held)

  abbrev pub keep_in : Cached S → Key → ℕ → Block → Cached S
  keep_in c key slot block = record c {
    slots = set c.slots slot block;
    held = put_key key slot c.held;
    order = push_back c.order slot;
  }

  -- A full cache gives the slot that was read least recently. An empty order where the cache is full,
  -- which has no block to give, is a panic.
  abbrev pub keep_evicting : Cached S → Key → List ℕ → Block → Cached S
  keep_evicting c key [] block = c
  keep_evicting c key (oldest ∷ rest) block =
      keep_in (record c { held = free_slot oldest c.held; order = rest }) key oldest block

  unfoldable pub keep : Cached S → ObjectId → ℕ → Block → Cached S
  keep c object offset block =
      if c.blocks == 0
      then c
      else if is_some (at_key (object, offset) c.held)
      then c
      else if leb c.blocks (length c.order)
      then keep_evicting c (object, offset) c.order block
      else keep_in c (object, offset) (length c.order) block

  unfoldable pub forget : Cached S → ObjectId → Cached S
  forget c object = record c {
    held = free_object object c.held;
    order = without_all (slots_of object c.held) c.order;
  }

  module _ (store : DurableStore S) where
    unfoldable pub submit_write : Cached S → ℕ → ObjectId → ℕ → Block → Bool → ℕ → Cached S × Bool
    submit_write c handle object offset block creating now =
        let forgotten = forget c object in
        let written = store.submit_write forgotten.inner handle object offset block creating now in
        (record forgotten { inner = written.0 }, written.1)

    abbrev pub read_below : Cached S → ObjectId → ℕ → S × Outcome Block → Cached S × Outcome Block
    read_below c object offset (inner, done block) =
        (keep (record c { inner = inner }) object offset block, done block)
    read_below c object offset (inner, failed fault) = (record c { inner = inner }, failed fault)

    abbrev pub read_after : ObjectId → ℕ → Cached S × Option Block → Cached S × Outcome Block
    read_after object offset (c, some block) = (c, done block)
    read_after object offset (c, none) =
        read_below c object offset (store.read_at c.inner object offset)

    unfoldable pub read_at : Cached S → ObjectId → ℕ → Cached S × Outcome Block
    read_at c object offset = read_after object offset (take_from_cache c object offset)

    abbrev pub issue : Cached S → ℕ → ObjectId → ℕ → S × Bool → Cached S × Bool
    issue c handle object offset (inner, false) = (record c { inner = inner }, false)
    issue c handle object offset (inner, true) = (
      record c {
        inner = inner;
        issued = insert handle (object, offset) c.issued;
        waiting = put_key (object, offset) [] c.waiting;
      },
      true,
    )

    abbrev pub join : Cached S → ℕ → ObjectId → ℕ → ℕ → Option (List Owed) → Cached S × Bool
    join c handle object offset now (some waiters) = (
      record c {
        waiting =
            put_key (object, offset)
              (push_back waiters (record { handle = handle; object = object; offset = offset }))
              c.waiting;
        joined = inc_word 64 c.joined;
      },
      true,
    )
    join c handle object offset now none =
        issue c handle object offset (store.submit c.inner handle object offset now)

    unfoldable pub submit : Cached S → ℕ → ObjectId → ℕ → ℕ → Cached S × Bool
    submit c handle object offset now =
        if is_some (at_key (object, offset) c.held)
        then (
          record c {
            ready =
                push_back c.ready (record { handle = handle; object = object; offset = offset });
          },
          true,
        )
        else join c handle object offset now (at_key (object, offset) c.waiting)

    abbrev pub named : ℕ → Cached S × Outcome Block → Cached S × Outcome (ℕ × Block)
    named handle (c, done block) = (c, done (handle, block))
    named handle (c, failed fault) = (c, failed fault)

    -- Those who joined a read are answered from the block it brought back.
    abbrev pub release_waiters : Cached S → Key → Option (List Owed) → Cached S
    release_waiters c key none = c
    release_waiters c key (some waiters) = record c {
      ready = c.ready ++ waiters;
      waiting = drop_key key c.waiting;
    }

    abbrev pub collect : Cached S → Key → Block → Cached S
    collect c key block =
        let kept = keep c key.0 key.1 block in release_waiters kept key (at_key key kept.waiting)

    abbrev pub finished : Cached S → ℕ → Option Key → Block → Cached S
    finished c handle none block = c
    finished c handle (some key) block =
        collect (record c { issued = remove handle c.issued }) key block

    abbrev pub arrive :
        Cached S → S × Option (Outcome (ℕ × Block)) → Cached S × Option (Outcome (ℕ × Block))
    arrive c (inner, none) = (record c { inner = inner }, none)
    arrive c (inner, some (failed fault)) =
        (record c { inner = inner; issued = []; waiting = [] }, some (failed fault))
    arrive c (inner, some (done (handle, block))) = (
      finished (record c { inner = inner }) handle (lookup handle c.issued) block,
      some (done (handle, block)),
    )

    -- What is ready is a read that was already finished; evicted since, it is read again.
    abbrev pub poll_after : ℕ → Cached S × Outcome Block → Cached S × Option (Outcome (ℕ × Block))
    poll_after handle read = let answer = named handle read in (answer.0, some answer.1)

    abbrev pub poll_from : Cached S → List Owed → ℕ → Cached S × Option (Outcome (ℕ × Block))
    poll_from c (owed ∷ rest) now =
        poll_after owed.handle (read_at (record c { ready = rest }) owed.object owed.offset)
    poll_from c [] now = arrive c (store.poll c.inner now)

    unfoldable pub poll : Cached S → ℕ → Cached S × Option (Outcome (ℕ × Block))
    poll c now = poll_from c c.ready now

    unfoldable pub inflight : Cached S → ℕ
    inflight c = length c.ready + store.inflight c.inner

    unfoldable pub submit_remove : Cached S → ℕ → ObjectId → ℕ → Cached S × Bool
    submit_remove c handle object now =
        let forgotten = forget c object in
        let removed = store.submit_remove forgotten.inner handle object now in
        (record forgotten { inner = removed.0 }, removed.1)

    unfoldable pub submit_rename : Cached S → ℕ → ObjectId → ObjectId → ℕ → Cached S × Bool
    submit_rename c handle from to now =
        let forgotten = forget (forget c from) to in
        let renamed = store.submit_rename forgotten.inner handle from to now in
        (record forgotten { inner = renamed.0 }, renamed.1)
