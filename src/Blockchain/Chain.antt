-- ===== src/Blockchain/Chain.antt =====
-- src/blockchain/blockchain.h and blockchain.cpp: the state of the chain, without storage on disk
-- (Initialize with no directory), and the operations that change it. `now` is the clock's answer.
-- A mutex that is locked again, a null pointer that is read and what the memory pool does beyond
-- C++ are `undefined`; `reentrant` is whether a mutex may be locked again, which std::mutex may not.
pub mod Acceptance
pub mod Shape
pub mod Tree
pub mod Reverting
use dinari_blockchain_hub.Base.{
  ℕ, zero, suc, ◌+◌, ◌-◌, ◌%◌, ◌^◌, Bool, true, false, not, Option, none, some, List, [], ◌∷◌, ◌++◌,
  map, ltb, if◌then◌else◌, drop,
}
use dinari_blockchain_hub.Base.Eq.{◌=?◌, nat_eq, list_eq}
use dinari_blockchain_hub.Base.Map.{Map, lookup, insert, erase}
use dinari_blockchain_hub.Util.Serialize.{Bytes}
use dinari_blockchain_hub.Crypto.Hash.{Primitives}
use dinari_blockchain_hub.Core.Amount.{safe_add}
use dinari_blockchain_hub.Core.OutPoint.{OutPoint}
use dinari_blockchain_hub.Core.TxOut.{TxOut}
use dinari_blockchain_hub.Core.Transaction.{Transaction, get_hash, get_output_value}
use dinari_blockchain_hub.Core.Utxo.{UtxoSet, apply_transaction, remove_utxo, new_utxo_set}
use dinari_blockchain_hub.Core.Mempool.{
  MemPool, Run, done, locked_again, erased_again, new_mem_pool, add_transaction,
  remove_transactions,
}
use dinari_blockchain_hub.Blockchain.Block
use dinari_blockchain_hub.Blockchain.Block.{Block, header_hash, has_coinbase, get_total_fees}
use dinari_blockchain_hub.Blockchain.Index.{
  BlockIndex, Indices, new_block_index, update_chain_work, height_of, path_back, find_path, Fork,
  no_fork, fork_at, null_read, find_fork, update_main_chain, is_better_chain,
}
use dinari_blockchain_hub.Consensus.Validation
use dinari_blockchain_hub.Consensus.Validation.{quick_block_check, validate_block}
use dinari_blockchain_hub.Consensus.Difficulty.{get_expected_difficulty}

pub record Blockchain : Type 0 where
  pub blocks : Map Bytes Block
  pub block_indices : Indices
  pub height_index : Map ℕ Bytes
  pub orphan_blocks : Map Bytes Block
  pub best_block : Option Bytes
  pub genesis_block : Option Bytes
  pub utxos : UtxoSet
  pub mempool : MemPool

abbrev pub new_blockchain : Blockchain
new_blockchain = record {
  blocks = [];
  block_indices = [];
  height_index = [];
  orphan_blocks = [];
  best_block = none;
  genesis_block = none;
  utxos = new_utxo_set;
  mempool = new_mem_pool;
}

-- How a call ends.
pub data Outcome {ℓ} (A : Type ℓ) : Type ℓ where
  ended : A → Outcome A
  thrown : Outcome A
  undefined : Outcome A

-- `if (!call) return false`, and what follows.
abbrev pub or_false :
    Outcome (Bool × Blockchain)
    → (Blockchain → Outcome (Bool × Blockchain))
    → Outcome (Bool × Blockchain)
or_false (ended (true, c)) f = f c
or_false (ended (false, c)) f = ended (false, c)
or_false thrown f = thrown
or_false undefined f = undefined

-- The two calls of ApplyTransaction in UpdateUTXOs, the second in a loop.
unfoldable pub apply_all : Primitives → ℕ → List Transaction → UtxoSet → Bool × UtxoSet
apply_all p height [] u = (true, u)
apply_all p height (tx ∷ txs) u =
    let (applied, v) = apply_transaction p tx height u in
    let rest = apply_all p height txs v in if applied then rest else (false, v)

-- GetCoinbaseTransaction throws where there is none.
unfoldable pub apply_some : Primitives → ℕ → List Transaction → UtxoSet → Outcome (Bool × UtxoSet)
unfolding apply_all
apply_some p height [] u = thrown
apply_some p height (tx ∷ txs) u = ended (apply_all p height (tx ∷ txs) u)

unfoldable pub update_utxos : Primitives → Block → ℕ → UtxoSet → Outcome (Bool × UtxoSet)
unfolding apply_some
update_utxos p b height u = apply_some p height b.transactions u

-- The loops of RevertUTXOs.
unfoldable pub remove_outputs : Bytes → ℕ → List TxOut → UtxoSet → UtxoSet
remove_outputs tx_hash n [] u = u
remove_outputs tx_hash n (o ∷ os) u =
    remove_outputs tx_hash (n + 1) os
      (remove_utxo (record { tx_hash = tx_hash; index = n % 2 ^ 32 }) u).1

unfoldable pub revert_utxos : Primitives → List Transaction → UtxoSet → UtxoSet
unfolding remove_outputs
revert_utxos p [] u = u
revert_utxos p (tx ∷ txs) u = revert_utxos p txs (remove_outputs (get_hash p tx) 0 tx.outputs u)

unfoldable pub remove_from_mempool : Primitives → Block → MemPool → MemPool
remove_from_mempool p b m = remove_transactions (map (get_hash p) b.transactions) m

unfoldable pub coinbase_value : Block → ℕ
coinbase_value b =
    if not (has_coinbase b)
    then 0
    else elim b.transactions [ [] ↦ 0 | tx ∷ txs ↦ get_output_value tx ]

abbrev pub supply_of : Option BlockIndex → ℕ
supply_of none = 0
supply_of (some index) = index.money_supply

-- What a pointer is at.
unfoldable pub index_at : Option Bytes → Indices → Option BlockIndex
index_at none m = none
index_at (some h) m = lookup h m

abbrev pub put_index : Bytes → BlockIndex → Blockchain → Blockchain
put_index h index c = record c { block_indices = insert h index c.block_indices }

-- The last two steps of ConnectBlock.
unfoldable pub connect_coins :
    Primitives → Block → Outcome (Bool × UtxoSet) → Blockchain → Outcome (Bool × Blockchain)
unfolding remove_from_mempool
connect_coins p b (ended (true, u)) c =
    ended (true, record c { utxos = u; mempool = remove_from_mempool p b c.mempool })
connect_coins p b (ended (false, u)) c = ended (false, record c { utxos = u })
connect_coins p b thrown c = thrown
connect_coins p b undefined c = undefined

unfoldable pub connect_block : Primitives → Block → Bytes → Blockchain → Outcome (Bool × Blockchain)
unfolding update_chain_work update_utxos coinbase_value index_at connect_coins
connect_block p b h c = elim (lookup h c.block_indices) [
  | none ↦ undefined
  | some index ↦
      let prev = index_at index.prev c.block_indices in
      let index = update_chain_work prev index in
      let total_fees = get_total_fees b c.utxos in
      let minted = if ltb total_fees (coinbase_value b) then coinbase_value b - total_fees else 0 in
      elim (safe_add (supply_of prev) minted) [
        | none ↦ ended (false, put_index h index c)
        | some supply ↦
            connect_coins p b (update_utxos p b index.height c.utxos)
              (put_index h (record index { money_supply = supply }) c)
      ]
]

-- The loop of DisconnectBlock over the transactions behind the coinbase.
unfoldable pub add_back :
    Bool → Primitives → ℕ → List Transaction → UtxoSet → ℕ → MemPool → Outcome MemPool
add_back reentrant p now [] u height m = ended m
add_back reentrant p now (tx ∷ txs) u height m =
    elim (add_transaction reentrant p now tx u height m) [
      | done r ↦ add_back reentrant p now txs u height r.1
      | locked_again ↦ undefined
      | erased_again ↦ undefined
    ]

-- The end of DisconnectBlock.
unfoldable pub disconnected :
    Bytes → BlockIndex → Blockchain → Outcome MemPool → Outcome (Bool × Blockchain)
disconnected h index c (ended m) =
    ended (true, put_index h (record index { is_main_chain = false }) (record c { mempool = m }))
disconnected h index c thrown = thrown
disconnected h index c undefined = undefined

unfoldable pub disconnect_block :
    Bool → Primitives → ℕ → Bytes → Blockchain → Outcome (Bool × Blockchain)
unfolding revert_utxos add_back disconnected
disconnect_block reentrant p now h c = elim (lookup h c.block_indices) [
  | none ↦ ended (false, c)
  | some index ↦
      let u = revert_utxos p index.block.transactions c.utxos in
      disconnected h index (record c { utxos = u })
        (add_back reentrant p now (drop 1 index.block.transactions) u index.height c.mempool)
]

-- The loops of Reorganize.
unfoldable pub disconnect_all :
    Bool → Primitives → ℕ → List Bytes → Blockchain → Outcome (Bool × Blockchain)
unfolding disconnect_block
disconnect_all reentrant p now [] c = ended (true, c)
disconnect_all reentrant p now (h ∷ hs) c =
    or_false (disconnect_block reentrant p now h c) (disconnect_all reentrant p now hs)

unfoldable pub connect_all : Primitives → List Bytes → Blockchain → Outcome (Bool × Blockchain)
unfolding connect_block
connect_all p [] c = ended (true, c)
connect_all p (h ∷ hs) c = elim (lookup h c.block_indices) [
  | none ↦ undefined
  | some index ↦ or_false (connect_block p index.block h c) (connect_all p hs)
]

unfoldable pub reorganize :
    Bool → Primitives → ℕ → Bytes → Bytes → Blockchain → Outcome (Bool × Blockchain)
unfolding disconnect_all connect_all find_fork find_path path_back height_of
reorganize reentrant p now best new_tip c =
    elim (find_fork c.block_indices (some best) (some new_tip)) [
      | no_fork ↦ ended (false, c)
      | null_read ↦ undefined
      | fork_at f ↦
          or_false
            (disconnect_all reentrant p now
              (path_back c.block_indices (suc (height_of best c.block_indices)) f (some best)) c)
            (connect_all p (find_path c.block_indices f new_tip))
    ]

-- The end of SetBestChain.
unfoldable pub set_tip : Bytes → Blockchain → Outcome (Bool × Blockchain)
set_tip new_tip c =
    let (indices, heights) = update_main_chain new_tip c.block_indices in
    ended (
      true,
      record c { block_indices = indices; height_index = heights; best_block = some new_tip },
    )

-- SetBestChain behind FindFork.
unfoldable pub change_best :
    Bool → Primitives → ℕ → Bytes → Bytes → Blockchain → Fork → Outcome (Bool × Blockchain)
unfolding reorganize set_tip
change_best reentrant p now best new_tip c no_fork = ended (false, c)
change_best reentrant p now best new_tip c null_read = undefined
change_best reentrant p now best new_tip c (fork_at f) =
    or_false (if f =? best then ended (true, c) else reorganize reentrant p now best new_tip c)
      (set_tip new_tip)

unfoldable pub set_best_chain :
    Bool → Primitives → ℕ → Bytes → Blockchain → Outcome (Bool × Blockchain)
unfolding change_best find_fork
set_best_chain reentrant p now new_tip c = elim c.best_block [
  | none ↦ ended (false, c)
  | some best ↦
      let changed =
        change_best reentrant p now best new_tip c
          (find_fork c.block_indices (some best) (some new_tip)) in
      if new_tip =? best then ended (true, c) else changed
]
