-- ===== src/Core/Mempool/History.antt =====
-- What the operations of the memory pool (src/core/mempool.cpp) leave behind, and what a pool can
-- become by them.
use dinari_blockchain_hub.Base.{
  ℕ, zero, suc, ◌≡◌, ◌≢◌, refl, sym, Bool, true, false, none, List, [], ◌∷◌, if◌then◌else◌, arith,
  All, leb, ==_iff, Option-cases, Bool-cases, inl, inr,
}
use dinari_blockchain_hub.Base.Eq.{nat_eq, list_eq, list_beq_iff}
use dinari_blockchain_hub.Base.Map.{lookup}
use dinari_blockchain_hub.Util.Serialize.{Bytes}
use dinari_blockchain_hub.Crypto.Hash.{Primitives}
use dinari_blockchain_hub.Core.OutPoint.{out_point_eq}
use dinari_blockchain_hub.Core.Transaction.{Transaction, get_hash}
use dinari_blockchain_hub.Core.Utxo.{UtxoSet}
use dinari_blockchain_hub.Core.Mempool.{
  MemPoolEntry, MemPool, done, erased_again, get_fee_rate, inputs_conflict, has_transaction,
  store_entry, subtract, check_for_conflicts, remove_transaction, remove_transactions,
  remove_conflicts, conflicting, make_room, add_transaction, new_mem_pool,
}
use dinari_blockchain_hub.Core.Mempool.Consistency.{fee_count, size_sum, Rates, IsConsistent}
use dinari_blockchain_hub.Core.Mempool.Steps.{
  new_mem_pool-IsConsistent, store_entry-IsConsistent, drop_entry-IsConsistent,
}
use dinari_blockchain_hub.Core.Mempool.{trim_to_size, new_entry, max_mempool_size, clear}
use dinari_blockchain_hub.Core.Fees.{get_fee}
use mathlib.Core.Logic.{◌⊎◌}
use mathlib.Core.Path.{subst}
use dinari_blockchain_hub.Base.{length, List-cases}

pub remove_transaction-IsConsistent :
    (p : Primitives) (h : Bytes) (m : MemPool)
    → IsConsistent p m
    → IsConsistent p (remove_transaction h m).1
unfolding remove_transaction
remove_transaction-IsConsistent p h m c = elim (Option-cases (lookup h m.transactions)) [
  | inl n ↦ rw (n, remove_transaction) c
  | inr (e, f) ↦ rw (f, remove_transaction) (drop_entry-IsConsistent p m c h e f)
]

remove_transactions-IsConsistent :
    (p : Primitives) (hs : List Bytes) (m : MemPool)
    → IsConsistent p m
    → IsConsistent p (remove_transactions hs m)
unfolding remove_transactions
remove_transactions-IsConsistent p [] m c = c
remove_transactions-IsConsistent p (h ∷ hs) m c =
    remove_transactions-IsConsistent p hs (remove_transaction h m).1
      (remove_transaction-IsConsistent p h m c)

-- A consistent pool whose sum of sizes is not zero has a pair in its index by fee rate.
pub fee_index-some :
    (p : Primitives) (m : MemPool) (t : ℕ)
    → IsConsistent p m
    → leb m.total_size t ≡ false
    → m.fee_index ≢ []
unfolding fee_count size_sum has_transaction lookup
fee_index-some p m t c over none_rated = elim (List-cases m.transactions) [
  | inl n ↦ ground (arith, n, over, c.sizes)
  | inr ((h, e), l, n) ↦ ground (arith, n, none_rated, c.listed h, list_beq_iff h h)
]

-- Where the index by fee rate holds the rates of the entries, a trim that has an entry to drop
-- erases through an iterator that has been erased.
pub trim_to_size-Rates :
    (target_size fuel : ℕ) (m : MemPool)
    → All (Rates m.transactions) m.fee_index
    → m.fee_index ≢ []
    → trim_to_size target_size (suc fuel) m
      ≡ (if leb m.total_size target_size then done m else erased_again)
unfolding trim_to_size
trim_to_size-Rates t f m rated some_rated = elim (List-cases m.fee_index) [
  | inl n ↦ absurd (some_rated n)
  | inr ((r, h), l, n) ↦
      let rates : All (Rates m.transactions) ((r, h) ∷ l) =
        subst (All (Rates m.transactions)) n rated in
      let (e, found, rate) = rates.0 in ground (arith, n, found, rate, ==_iff r (get_fee_rate e))
]

pub trim_to_size-IsConsistent :
    (p : Primitives) (target_size fuel : ℕ) (m : MemPool)
    → IsConsistent p m
    → trim_to_size target_size (suc fuel) m
      ≡ (if leb m.total_size target_size then done m else erased_again)
unfolding trim_to_size
trim_to_size-IsConsistent p t f m c = elim (List-cases m.fee_index) [
  | inl n ↦ ground (arith, n, fee_index-some p m t c)
  | inr ((r, h), l, n) ↦ trim_to_size-Rates t f m c.rated (λ e. cc (n, e))
]

make_room_outcome :
    (p : Primitives) (h : Bytes) (e : MemPoolEntry) (b : Bool) (m n : MemPool)
    → IsConsistent p m
    → make_room h e m ≡ done (b, n)
    → n ≡ (if b then store_entry h e m else m)
unfolding make_room
make_room_outcome p h e b m n c run = elim (List-cases m.fee_index) [
  | inl t ↦ ground (arith, run, t)
  | inr ((r, g), l, t) ↦
      ground (
        arith,
        run,
        t,
        trim_to_size-IsConsistent p (subtract max_mempool_size e.size) (length l) m c,
      )
]

-- A run of AddTransaction that ends leaves the pool as it was, or with the new entry.
pub add_transaction_outcome :
    (x : Bool) (p : Primitives) (now : ℕ) (tx : Transaction) (u : UtxoSet) (ht : ℕ) (b : Bool)
    (m n : MemPool)
    → IsConsistent p m
    → add_transaction x p now tx u ht m ≡ done (b, n)
    → (b ≡ false) × (n ≡ m)
      ⊎ (b ≡ true)
        × (lookup (get_hash p tx) m.transactions ≡ none)
        × (inputs_conflict m.input_index tx.inputs ≡ false)
        × (n ≡ store_entry (get_hash p tx) (new_entry now tx (get_fee tx u)) m)
unfolding add_transaction has_transaction check_for_conflicts
add_transaction_outcome x p now tx u ht b m n c run = elim (Bool-cases b) [
  | inl t ↦
      ground (
        arith,
        t,
        run,
        make_room_outcome p (get_hash p tx) (new_entry now tx (get_fee tx u)) b m n c,
      )
  | inr t ↦
      ground (
        arith,
        t,
        run,
        make_room_outcome p (get_hash p tx) (new_entry now tx (get_fee tx u)) b m n c,
      )
]

-- The steps of a pool that end.
pub data Step (p : Primitives) : MemPool → MemPool → Type 0 where
  adding :
      (reentrant : Bool) (now : ℕ) (tx : Transaction) (u : UtxoSet) (current_height : ℕ) (b : Bool)
      {m n : MemPool}
      → add_transaction reentrant p now tx u current_height m ≡ done (b, n)
      → Step p m n
  removing : (h : Bytes) {m n : MemPool} → (remove_transaction h m).1 ≡ n → Step p m n
  clearing_conflicts : (tx : Transaction) {m n : MemPool} → remove_conflicts tx m ≡ n → Step p m n
  trimming :
      (target_size fuel : ℕ) {m n : MemPool} → trim_to_size target_size fuel m ≡ done n → Step p m n
  clearing : {m n : MemPool} → clear m ≡ n → Step p m n

-- What a pool that was empty can become.
pub data Reach (p : Primitives) : MemPool → Type 0 where
  empty_pool : Reach p new_mem_pool
  then_step : {m n : MemPool} → Reach p m → Step p m n → Reach p n

trim_to_size_zero : (t : ℕ) (m n : MemPool) → trim_to_size t 0 m ≡ done n → m ≡ n
unfolding trim_to_size
trim_to_size_zero t m n run = ground (arith, run)

Step-IsConsistent :
    (p : Primitives) (m n : MemPool) → Step p m n → IsConsistent p m → IsConsistent p n
unfolding new_entry remove_conflicts
Step-IsConsistent p m n (adding x now tx u ht b run) c =
    elim (add_transaction_outcome x p now tx u ht b m n c run) [
      | inl (t, same) ↦ subst (IsConsistent p) (sym same) c
      | inr (t, new, free, result) ↦ subst (IsConsistent p) (sym result) (
          store_entry-IsConsistent p m c (get_hash p tx) (new_entry now tx (get_fee tx u)) new refl
            refl free)
    ]
Step-IsConsistent p m n (removing h result) c =
    subst (IsConsistent p) result (remove_transaction-IsConsistent p h m c)
Step-IsConsistent p m n (clearing_conflicts tx result) c =
    subst (IsConsistent p) result
      (remove_transactions-IsConsistent p (conflicting m.input_index tx.inputs) m c)
Step-IsConsistent p m n (trimming t zero run) c =
    subst (IsConsistent p) (trim_to_size_zero t m n run) c
Step-IsConsistent p m n (trimming t (suc f) run) c =
    subst (IsConsistent p) (ground (arith, run, trim_to_size-IsConsistent p t f m c)) c
Step-IsConsistent p m n (clearing result) c =
    subst (IsConsistent p) result (new_mem_pool-IsConsistent p)

-- Whatever a memory pool has become from the empty one, by runs of AddTransaction and TrimToSize
-- that end and by RemoveTransaction, RemoveConflicts and Clear, it is consistent: each entry is
-- under its hash and has the size of its transaction, the index by outpoint has exactly what the
-- entries spend, the index by fee rate has each entry once and under its rate, and the two sums
-- are those of the entries modulo 2^64.
pub Reach-IsConsistent : (p : Primitives) (m : MemPool) → Reach p m → IsConsistent p m
Reach-IsConsistent p _ empty_pool = new_mem_pool-IsConsistent p
Reach-IsConsistent p n (then_step {m} r s) = Step-IsConsistent p m n s (Reach-IsConsistent p m r)
