-- ===== src/Core/Mempool.antt =====
-- src/core/mempool.h and mempool.cpp: the memory pool, its entries with an index by spent outpoint
-- and one by fee rate. `now` is the clock's answer. The priority of an entry is a double that
-- nothing reads, and is left out. AddTransaction and TrimToSize do what C++ leaves undefined: the
-- first locks a mutex again that it holds, the second erases through an iterator that has been
-- erased. A run says so; `reentrant` is whether the mutex may be locked again, which std::mutex
-- may not.
pub mod Consistency
pub mod Steps
pub mod History
pub mod Conflicts
pub mod Mining
use dinari_blockchain_hub.Base.{
  ℕ, zero, suc, ◌+◌, ◌-◌, ◌*◌, ◌/◌, ◌%◌, ◌^◌, Bool, true, false, not, ◌&&◌, ◌||◌, Option, none,
  some, List, [], ◌∷◌, ◌++◌, map, ltb, leb, ◌==◌, if◌then◌else◌, length, drop,
}
use dinari_blockchain_hub.Base.Eq.{◌=?◌, nat_eq, list_eq}
use dinari_blockchain_hub.Base.Map.{Map, lookup, insert, erase}
use dinari_blockchain_hub.Util.Serialize.{Bytes, size_mod}
use dinari_blockchain_hub.Crypto.Hash.{Primitives}
use dinari_blockchain_hub.Core.Amount.{add_amount, amount_mod, min_relay_tx_fee}
use dinari_blockchain_hub.Core.OutPoint.{OutPoint, out_point_eq}
use dinari_blockchain_hub.Core.TxIn
use dinari_blockchain_hub.Core.TxIn.{TxIn}
use dinari_blockchain_hub.Core.Transaction
use dinari_blockchain_hub.Core.Transaction.{Transaction, empty, is_coinbase, get_hash}
use dinari_blockchain_hub.Core.Fees.{get_fee}
use dinari_blockchain_hub.Core.Utxo.{UtxoSet}
use dinari_blockchain_hub.Consensus.Validation.{validate_transaction}

abbrev pub max_mempool_size : ℕ
max_mempool_size = 300 * 1024 * 1024

pub record MemPoolEntry : Type 0 where
  pub tx : Transaction
  pub time_added : ℕ
  pub fee : ℕ
  pub size : ℕ

unfoldable pub get_fee_rate : MemPoolEntry → ℕ
get_fee_rate e = if ltb 0 e.size then e.fee / e.size else 0

-- A std::multimap is its pairs in order.
pub record MemPool : Type 0 where
  pub transactions : Map Bytes MemPoolEntry
  pub input_index : Map OutPoint Bytes
  pub fee_index : List (ℕ × Bytes)
  pub total_size : ℕ
  pub total_fees : ℕ

abbrev pub new_mem_pool : MemPool
new_mem_pool = record {
  transactions = [];
  input_index = [];
  fee_index = [];
  total_size = 0;
  total_fees = 0;
}

-- How a call ends.
pub data Run {ℓ} (A : Type ℓ) : Type ℓ where
  done : A → Run A
  locked_again : Run A
  erased_again : Run A

unfoldable pub has_transaction : Bytes → MemPool → Bool
has_transaction tx_hash m = elim (lookup tx_hash m.transactions) [ none ↦ false | some _ ↦ true ]

unfoldable pub get_entry : Bytes → MemPool → Option MemPoolEntry
get_entry tx_hash m = lookup tx_hash m.transactions

unfoldable pub get_transaction : Bytes → MemPool → Option Transaction
get_transaction tx_hash m = elim (lookup tx_hash m.transactions) [
  | none ↦ none
  | some e ↦ some e.tx
]

unfoldable pub get_all_transactions : MemPool → List Transaction
get_all_transactions m = map (λ r. r.1.tx) m.transactions

-- The loop over the inputs in CheckForConflicts.
unfoldable pub inputs_conflict : Map OutPoint Bytes → List TxIn → Bool
inputs_conflict index [] = false
inputs_conflict index (i ∷ is) =
    let rest = inputs_conflict index is in
    if TxIn.is_coinbase i
    then rest
    else elim (lookup i.prev_out index) [ none ↦ rest | some _ ↦ true ]

unfoldable pub check_for_conflicts : Transaction → MemPool → Bool
unfolding inputs_conflict
check_for_conflicts tx m = inputs_conflict m.input_index tx.inputs

unfoldable pub validate_for_mempool : Primitives → Transaction → UtxoSet → ℕ → Bool
validate_for_mempool p tx u current_height =
    if not (Transaction.is_valid tx)
    then false
    else if is_coinbase tx
    then false
    else if not (Transaction.is_standard tx)
    then false
    else elim (validate_transaction p tx current_height u false) [
      | some _ ↦ false
      | none ↦ not (ltb (get_fee tx u / Transaction.get_size tx) min_relay_tx_fee)
    ]

-- The loops over the inputs in AddToIndices and RemoveFromIndices.
unfoldable pub index_inputs : Bytes → List TxIn → Map OutPoint Bytes → Map OutPoint Bytes
index_inputs tx_hash [] index = index
index_inputs tx_hash (i ∷ is) index =
    index_inputs tx_hash is
      (if not (TxIn.is_coinbase i) then insert i.prev_out tx_hash index else index)

unfoldable pub unindex_inputs : List TxIn → Map OutPoint Bytes → Map OutPoint Bytes
unindex_inputs [] index = index
unindex_inputs (i ∷ is) index =
    unindex_inputs is (if not (TxIn.is_coinbase i) then erase i.prev_out index else index)

-- feeIndex.emplace: behind all that are not greater.
unfoldable pub emplace : ℕ → Bytes → List (ℕ × Bytes) → List (ℕ × Bytes)
emplace rate tx_hash [] = (rate, tx_hash) ∷ []
emplace rate tx_hash ((r, h) ∷ l) =
    if leb r rate then (r, h) ∷ emplace rate tx_hash l else (rate, tx_hash) ∷ (r, h) ∷ l

-- The search in the range of the rate, and the erasure of what it finds.
unfoldable pub erase_fee : ℕ → Bytes → List (ℕ × Bytes) → List (ℕ × Bytes)
erase_fee rate tx_hash [] = []
erase_fee rate tx_hash ((r, h) ∷ l) =
    if r == rate && h =? tx_hash then l else (r, h) ∷ erase_fee rate tx_hash l

unfoldable pub add_to_indices : Bytes → MemPoolEntry → MemPool → MemPool
unfolding index_inputs emplace get_fee_rate
add_to_indices tx_hash e m = record m {
  input_index = index_inputs tx_hash e.tx.inputs m.input_index;
  fee_index = emplace (get_fee_rate e) tx_hash m.fee_index;
}

unfoldable pub remove_from_indices : Bytes → MemPoolEntry → MemPool → MemPool
unfolding unindex_inputs erase_fee get_fee_rate
remove_from_indices tx_hash e m = record m {
  input_index = unindex_inputs e.tx.inputs m.input_index;
  fee_index = erase_fee (get_fee_rate e) tx_hash m.fee_index;
}

-- `totalSize -= size` on a size_t, and the like on an Amount.
abbrev pub subtract : ℕ → ℕ → ℕ
subtract a b = (a + size_mod - b % size_mod) % size_mod

-- What AddTransaction stores, once its checks are passed.
unfoldable pub store_entry : Bytes → MemPoolEntry → MemPool → MemPool
unfolding add_to_indices
store_entry tx_hash e m =
    let m =
      add_to_indices tx_hash e (record m { transactions = insert tx_hash e m.transactions }) in
    record m {
      total_size = (m.total_size + e.size) % size_mod;
      total_fees = add_amount m.total_fees e.fee;
    }

-- What RemoveTransaction and TrimToSize do with an entry that they have found.
unfoldable pub drop_entry : Bytes → MemPoolEntry → MemPool → MemPool
unfolding remove_from_indices
drop_entry tx_hash e m =
    let m = remove_from_indices tx_hash e m in
    record m {
      transactions = erase tx_hash m.transactions;
      total_size = subtract m.total_size e.size;
      total_fees = subtract m.total_fees e.fee;
    }

unfoldable pub remove_transaction : Bytes → MemPool → Bool × MemPool
unfolding drop_entry
remove_transaction tx_hash m = elim (lookup tx_hash m.transactions) [
  | none ↦ (false, m)
  | some e ↦ (true, drop_entry tx_hash e m)
]

unfoldable pub remove_transactions : List Bytes → MemPool → MemPool
unfolding remove_transaction
remove_transactions [] m = m
remove_transactions (h ∷ hs) m = remove_transactions hs (remove_transaction h m).1

unfoldable pub conflicting : Map OutPoint Bytes → List TxIn → List Bytes
conflicting index [] = []
conflicting index (i ∷ is) =
    let rest = conflicting index is in
    if TxIn.is_coinbase i
    then rest
    else elim (lookup i.prev_out index) [ none ↦ rest | some h ↦ h ∷ rest ]

unfoldable pub remove_conflicts : Transaction → MemPool → MemPool
unfolding conflicting remove_transactions
remove_conflicts tx m = remove_transactions (conflicting m.input_index tx.inputs) m

-- TrimToSize. Where the entry stands in the index under the rate that it has, RemoveFromIndices
-- erases the very element that the iterator of the loop is at, and the loop erases it again.
unfoldable pub trim_to_size : ℕ → ℕ → MemPool → Run MemPool
unfolding get_fee_rate drop_entry
trim_to_size target_size zero m = done m
trim_to_size target_size (suc fuel) m = elim m.fee_index [
  | [] ↦ done m
  | (rate, tx_hash) ∷ l ↦
      let missing = trim_to_size target_size fuel (record m { fee_index = l }) in
      if leb m.total_size target_size then done m else elim (lookup tx_hash m.transactions) [
        | none ↦ missing
        | some e ↦
            let m = drop_entry tx_hash e m in
            let dropped =
              trim_to_size target_size fuel (record m { fee_index = drop 1 m.fee_index }) in
            if rate == get_fee_rate e then erased_again else dropped
      ]
]

unfoldable pub is_full : MemPool → Bool
is_full m = leb max_mempool_size m.total_size

unfoldable pub new_entry : ℕ → Transaction → ℕ → MemPoolEntry
new_entry now tx fee = record {
  tx = tx;
  time_added = now;
  fee = fee;
  size = Transaction.get_size tx;
}

abbrev pub stored : Bytes → MemPoolEntry → Run MemPool → Run (Bool × MemPool)
stored tx_hash e (done m) = done (true, store_entry tx_hash e m)
stored tx_hash e locked_again = locked_again
stored tx_hash e erased_again = erased_again

-- AddTransaction behind its checks: the pool may be full.
unfoldable pub make_room : Bytes → MemPoolEntry → MemPool → Run (Bool × MemPool)
unfolding is_full trim_to_size store_entry
make_room tx_hash e m =
    if not (is_full m) then done (true, store_entry tx_hash e m) else elim m.fee_index [
      | [] ↦ done (true, store_entry tx_hash e m)
      | (lowest, h) ∷ l ↦
          if leb (e.fee / e.size) lowest
          then done (false, m)
          else stored tx_hash e
              (trim_to_size (subtract max_mempool_size e.size) (length m.fee_index) m)
    ]

-- HasTransaction, the first call in AddTransaction, locks the mutex that AddTransaction holds.
unfoldable pub add_transaction :
    Bool → Primitives → ℕ → Transaction → UtxoSet → ℕ → MemPool → Run (Bool × MemPool)
unfolding has_transaction validate_for_mempool check_for_conflicts new_entry make_room
add_transaction reentrant p now tx u current_height m =
    if not reentrant
    then locked_again
    else if has_transaction (get_hash p tx) m
    then done (false, m)
    else if not (validate_for_mempool p tx u current_height)
    then done (false, m)
    else if check_for_conflicts tx m
    then done (false, m)
    else make_room (get_hash p tx) (new_entry now tx (get_fee tx u)) m

-- The loop of GetTransactionsForMining over the sorted pairs.
unfoldable pub select_for_mining :
    MemPool → ℕ → ℕ → List (ℕ × Bytes) → List Transaction → ℕ → List Transaction
select_for_mining m max_size max_count [] result current_size = result
select_for_mining m max_size max_count ((rate, tx_hash) ∷ l) result current_size =
    let skipped = select_for_mining m max_size max_count l result current_size in
    if leb max_count (length result) then result else elim (lookup tx_hash m.transactions) [
      | none ↦ skipped
      | some e ↦
          let size = (current_size + e.size) % size_mod in
          let selected = select_for_mining m max_size max_count l (result ++ e.tx ∷ []) size in
          if ltb max_size size then skipped else selected
    ]

-- std::sort by falling rate is `sort`.
unfoldable pub get_transactions_for_mining :
    (List (ℕ × Bytes) → List (ℕ × Bytes)) → ℕ → ℕ → MemPool → List Transaction
unfolding select_for_mining get_fee_rate
get_transactions_for_mining sort max_size max_count m =
    select_for_mining m max_size max_count
      (sort (map (λ r. (get_fee_rate r.1, r.0)) m.transactions)) [] 0

abbrev pub clear : MemPool → MemPool
clear m = new_mem_pool

pub record Stats : Type 0 where
  pub transaction_count : ℕ
  pub pool_size : ℕ
  pub pool_fees : ℕ
  pub min_fee_rate : ℕ
  pub max_fee_rate : ℕ
  pub avg_fee_rate : ℕ

-- The loop of GetStats: the least rate, the greatest, and the sum.
unfoldable pub fold_rates : Map Bytes MemPoolEntry → ℕ × ℕ × ℕ → ℕ × ℕ × ℕ
unfolding get_fee_rate
fold_rates [] s = s
fold_rates ((h, e) ∷ m) (least, greatest, sum) =
    let rate = get_fee_rate e in
    fold_rates m (
      if ltb rate least then rate else least,
      if ltb greatest rate then rate else greatest,
      add_amount sum rate,
    )

unfoldable pub get_stats : MemPool → Stats
unfolding fold_rates
get_stats m =
    let (least, greatest, sum) = fold_rates m.transactions (amount_mod - 1, 0, 0) in
    let stats : Stats = record {
      transaction_count = length m.transactions;
      pool_size = m.total_size;
      pool_fees = m.total_fees;
      min_fee_rate = 0;
      max_fee_rate = 0;
      avg_fee_rate = 0;
    } in
    if empty m.transactions then stats else record stats {
      min_fee_rate = least;
      max_fee_rate = greatest;
      avg_fee_rate = sum / length m.transactions;
    }
