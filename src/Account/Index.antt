-- ===== src/Account/Index.antt =====
-- The index of account/src/store.rs: an id has at most one handle, which leads back to it, and a
-- follower that resolves ids does what the leader does by handles.
use my_ledger.Common.{
  ℕ, zero, suc, ◌<◌, ◌≤◌, ◌+◌, ◌^◌, ◌≡◌, ◌⊎◌, refl, false, arith, inl, inr, none, some, List, [],
  ◌∷◌, length, get_elem?, length-append, push_back, ◌==◌, if◌then◌else◌, Option-cases, Bool-cases,
}
use my_ledger.Common.Map.{lookup, Map, insert, lookup-insert}
use my_ledger.Base.Ids.{AcctHandle, AccountId, handle_new}
use my_ledger.Base.Error.{is_ok}
use my_ledger.Base.Effect.{Effect}
use my_ledger.Base.Ports.Account.{new_record}
use my_ledger.Account.{MemoryAccounts, open_account, add_account, resolve, both_handles, replay}

pub record IsIndexed (s : MemoryAccounts) : Type 0 where
  pub paired : length s.ids ≡ length s.records
  pub addressable : length s.records ≤ 2 ^ 32
  pub leads_back :
      (id : AccountId) (handle : AcctHandle)
      → lookup id s.index ≡ some handle
      → (handle < length s.records) × (get_elem? s.ids handle ≡ some id)

get_elem?-push_back_old {ℓ} :
    {A : Type ℓ} (xs : List A) (i : ℕ) (a x : A)
    → get_elem? xs i ≡ some a
    → get_elem? (push_back xs x) i ≡ some a
get_elem?-push_back_old [] i a x h = cc
get_elem?-push_back_old (y ∷ xs) zero a x h = h
get_elem?-push_back_old (y ∷ xs) (suc i) a x h = get_elem?-push_back_old xs i a x h

get_elem?-push_back_new {ℓ} :
    {A : Type ℓ} (xs : List A) (x : A) → get_elem? (push_back xs x) (length xs) ≡ some x
get_elem?-push_back_new [] x = refl
get_elem?-push_back_new (y ∷ xs) x = get_elem?-push_back_new xs x

handle_new-eq : (n : ℕ) → n < 2 ^ 32 → handle_new n ≡ n
unfolding handle_new
handle_new-eq n h = omega arith

-- An account opened for the first time gets the next handle, and no other account's handle changes.
pub open_account-fresh :
    (s : MemoryAccounts) (id other : AccountId) (ledger flags : ℕ)
    → length s.records < 2 ^ 32
    → lookup id s.index ≡ none
    → ((open_account s id ledger flags).1 ≡ length s.records)
      × (resolve (open_account s id ledger flags).0 other
          ≡ (if id == other then some (length s.records) else resolve s other))
unfolding open_account resolve
open_account-fresh s id other ledger flags room absent = ground (
  arith,
  handle_new-eq (length s.records) room,
  lookup-insert id other (length s.records) s.index,
)

leads_back-insert :
    (ids : List AccountId) (index : Map AcctHandle) (n : ℕ) (id : AccountId)
    → length ids ≡ n
    → ((other : AccountId) (handle : AcctHandle)
        → lookup other index ≡ some handle
        → (handle < n) × (get_elem? ids handle ≡ some other))
    → (other : AccountId) (handle : AcctHandle) → lookup other (insert id n index) ≡ some handle
    → (handle < n + 1) × (get_elem? (push_back ids id) handle ≡ some other)
leads_back-insert ids index n id e old other handle h = elim (Bool-cases (id == other)) [
  | inl same ↦ ground (arith, lookup-insert id other n index, get_elem?-push_back_new ids id)
  | inr differs ↦ ground (
    arith,
    lookup-insert id other n index,
    old other handle,
    get_elem?-push_back_old ids handle other id,
  )
]

add_account-IsIndexed :
    (s : MemoryAccounts) (id : AccountId) (ledger flags : ℕ)
    → length s.records < 2 ^ 32
    → IsIndexed s
    → IsIndexed (add_account s id ledger flags).0
unfolding add_account
add_account-IsIndexed s id ledger flags room v = rw (handle_new-eq (length s.records) room) record {
  paired = omega (arith, v.paired, more, length-append s.ids (id ∷ []));
  addressable = omega (arith, more);
  leads_back = λ other handle e.
      rw more (leads_back-insert s.ids s.index _ id v.paired v.leads_back other handle e);
}
  where
    more : length (push_back s.records (new_record ledger flags)) ≡ length s.records + 1
    more = omega (arith, length-append s.records (new_record ledger flags ∷ []))

-- Opening an account keeps the index consistent: every id it knows leads to a record in range and to
-- the place where the id itself is kept.
pub open_account-IsIndexed :
    (s : MemoryAccounts) (id : AccountId) (ledger flags : ℕ)
    → length s.records < 2 ^ 32
    → IsIndexed s
    → IsIndexed (open_account s id ledger flags).0
unfolding open_account
open_account-IsIndexed s id ledger flags room v = elim (Option-cases (lookup id s.index)) [
  | inl fresh ↦ rw (fresh, open_account) (add_account-IsIndexed s id ledger flags room v)
  | inr (handle, known) ↦ rw (known, open_account) v
]

pub resolve-lt-length :
    (s : MemoryAccounts) (id : AccountId) (handle : AcctHandle)
    → IsIndexed s
    → resolve s id ≡ some handle
    → handle < length s.records
unfolding resolve
resolve-lt-length s id handle v e = (v.leads_back id handle e).0

-- Two different ids never share an account.
pub resolve-injective :
    (s : MemoryAccounts) (id other : AccountId) (handle : AcctHandle)
    → IsIndexed s
    → resolve s id ≡ some handle
    → resolve s other ≡ some handle
    → id ≡ other
unfolding resolve
resolve-injective s id other handle v p q =
    ground (arith, v.leads_back id handle p, v.leads_back other handle q)

-- An effect that names an account the follower does not have is refused there and changes nothing.
pub replay_unknown :
    (s : MemoryAccounts) (effect : Effect)
    → (resolve s effect.debit_account ≡ none) ⊎ (resolve s effect.credit_account ≡ none)
    → ((replay s effect).0 ≡ s) × (is_ok (replay s effect).1 ≡ false)
unfolding replay both_handles
replay_unknown s effect h = (ground arith, ground arith)
