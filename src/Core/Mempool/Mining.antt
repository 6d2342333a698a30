-- ===== src/Core/Mempool/Mining.antt =====
-- GetTransactionsForMining of src/core/mempool.cpp.
use dinari_blockchain_hub.Base.{
  ℕ, ◌+◌, ◌%◌, ◌≤◌, ◌<◌, ◌≡◌, ◌≢◌, refl, true, some, List, [], ◌∷◌, arith, All, ltb, leb,
  Option-cases, Bool-cases, inl, inr,
}
use dinari_blockchain_hub.Base.Eq.{nat_eq, list_eq}
use dinari_blockchain_hub.Base.Map.{lookup}
use dinari_blockchain_hub.Util.Serialize.{Bytes, size_mod}
use dinari_blockchain_hub.Crypto.Hash.{Primitives}
use dinari_blockchain_hub.Core.OutPoint.{out_point_eq}
use dinari_blockchain_hub.Core.Transaction
use dinari_blockchain_hub.Core.Transaction.{Transaction, get_hash}
use dinari_blockchain_hub.Core.Utxo.{UtxoSet}
use dinari_blockchain_hub.Core.Mempool.{
  MemPoolEntry, MemPool, done, get_fee_rate, subtract, make_room, add_transaction,
}
use dinari_blockchain_hub.Core.Mempool.Consistency.{Rates, IsConsistent}
use dinari_blockchain_hub.Core.Mempool.History.{Reach, Reach-IsConsistent, trim_to_size-Rates}
use dinari_blockchain_hub.Core.Mempool.{
  select_for_mining, get_transactions_for_mining, get_transaction, max_mempool_size, is_full,
  new_entry,
}
use dinari_blockchain_hub.Base.{length, List-cases, ◌++◌, map, length-append}

-- The sizes of transactions together.
unfoldable pub tx_sizes : List Transaction → ℕ
tx_sizes [] = 0
tx_sizes (tx ∷ txs) = Transaction.get_size tx + tx_sizes txs

tx_sizes-append :
    (xs : List Transaction) (tx : Transaction)
    → tx_sizes (xs ++ tx ∷ []) ≡ tx_sizes xs + Transaction.get_size tx
unfolding tx_sizes
tx_sizes-append [] tx = omega arith
tx_sizes-append (x ∷ xs) tx = omega (arith, tx_sizes-append xs tx)

All-append_one :
    (P : Transaction → Type 0) (xs : List Transaction) (tx : Transaction)
    → All P xs
    → P tx
    → All P (xs ++ tx ∷ [])
All-append_one P [] tx a x = (x, tt)
All-append_one P (y ∷ xs) tx a x = (a.0, All-append_one P xs tx a.1 x)

-- A transaction of the pool.
abbrev pub IsPooled : MemPool → Transaction → Type 0
IsPooled m tx = (h : Bytes) × (get_transaction h m ≡ some tx)

-- What a selection keeps to.
abbrev pub IsSelection : MemPool → ℕ → ℕ → List Transaction → Type 0
IsSelection m max_size max_count txs =
    (tx_sizes txs ≤ max_size) × (length txs ≤ max_count) × All (IsPooled m) txs

module _ (p : Primitives) (m : MemPool) (c : IsConsistent p m) (max_size max_count : ℕ)
    (fits : (h : Bytes) (e : MemPoolEntry)
      → lookup h m.transactions ≡ some e
      → max_size + e.size < size_mod) where
  append-IsSelection :
      (h : Bytes) (e : MemPoolEntry) (result : List Transaction)
      → lookup h m.transactions ≡ some e
      → tx_sizes result + e.size ≤ max_size
      → length result < max_count
      → IsSelection m max_size max_count result
      → IsSelection m max_size max_count (result ++ e.tx ∷ [])
  unfolding get_transaction
  append-IsSelection h e result found size count s = (
    omega (arith, tx_sizes-append result e.tx, c.sized h e found),
    omega (arith, length-append result (e.tx ∷ [])),
    All-append_one (IsPooled m) result e.tx s.2 (h, ground (arith, found)),
  )

  select_for_mining-IsSelection :
      (l : List (ℕ × Bytes)) (result : List Transaction) (current_size : ℕ)
      → current_size ≡ tx_sizes result
      → IsSelection m max_size max_count result
      → IsSelection m max_size max_count
          (select_for_mining m max_size max_count l result current_size)
  unfolding select_for_mining
  select_for_mining-IsSelection [] result current_size same s = s
  select_for_mining-IsSelection ((rate, h) ∷ l) result current_size same s =
      let skipped = select_for_mining-IsSelection l result current_size same s in
      elim (Bool-cases (leb max_count (length result))) [
        | inl t ↦ rw t s
        | inr t ↦ elim (Option-cases (lookup h m.transactions)) [
          | inl n ↦ rw (t, n) skipped
          | inr (e, f) ↦ elim (Bool-cases (ltb max_size ((current_size + e.size) % size_mod))) [
            | inl large ↦ rw (t, f, large) skipped
            | inr small ↦
                let size : (current_size + e.size) % size_mod ≡ current_size + e.size =
                  omega (arith, fits h e f, same, s.0) in
                rw (t, f, small)
                  (select_for_mining-IsSelection l (result ++ e.tx ∷ [])
                    ((current_size + e.size) % size_mod)
                    (omega (arith, size, same, tx_sizes-append result e.tx, c.sized h e f))
                    (append-IsSelection h e result f (ground (arith, size, small, same))
                      (ground (arith, t)) s))
          ]
        ]
      ]

-- From a memory pool that has come from the empty one, GetTransactionsForMining gives transactions
-- of the pool, no more of them than the count allows and together no larger than the size allows,
-- whatever the order it sorts them in, where the size and that of any entry add up to less than
-- 2^64.
pub get_transactions_for_mining-IsSelection :
    (p : Primitives) (m : MemPool) (max_size max_count : ℕ)
    (sort : List (ℕ × Bytes) → List (ℕ × Bytes))
    → Reach p m
    → ((h : Bytes) (e : MemPoolEntry)
        → lookup h m.transactions ≡ some e
        → max_size + e.size < size_mod)
    → IsSelection m max_size max_count (get_transactions_for_mining sort max_size max_count m)
unfolding get_transactions_for_mining tx_sizes
get_transactions_for_mining-IsSelection p m max_size max_count sort r fits =
    select_for_mining-IsSelection p m (Reach-IsConsistent p m r) max_size max_count fits
      (sort (map (λ r. (get_fee_rate r.1, r.0)) m.transactions)) [] 0 refl
      (omega arith, omega arith, tt)

-- On a full memory pool with some entry, whose index by fee rate has the rates of its entries,
-- AddTransaction admits no transaction that is neither empty nor larger than the limit: also with
-- a mutex that may be locked again, it refuses or erases through an iterator that has been erased.
pub add_transaction_full :
    (p : Primitives) (m n : MemPool) (now : ℕ) (tx : Transaction) (u : UtxoSet) (ht : ℕ)
    → All (Rates m.transactions) m.fee_index
    → m.fee_index ≢ []
    → max_mempool_size ≤ m.total_size
    → 0 < Transaction.get_size tx
    → Transaction.get_size tx ≤ max_mempool_size
    → add_transaction true p now tx u ht m ≢ done (true, n)
unfolding add_transaction make_room is_full new_entry
add_transaction_full p m n now tx u ht rated some_rated full some_size fits run =
    elim (List-cases m.fee_index) [
      | inl t ↦ some_rated t
      | inr ((rate, g), l, t) ↦ ground (
        arith,
        run,
        full,
        some_size,
        fits,
        t,
        trim_to_size-Rates (subtract max_mempool_size (Transaction.get_size tx)) (length l) m rated
            some_rated,
      )
    ]
