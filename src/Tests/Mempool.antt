-- ===== src/Tests/Mempool.antt =====
-- The theorems on the memory pool, at a pool that has admitted one transaction.
use dinari_blockchain_hub.Base.{
  ◌+◌, ◌<◌, ◌≡◌, ◌≢◌, ◌↔◌, refl, true, false, none, some, [], ◌∷◌, arith, All,
}
use dinari_blockchain_hub.Base.Eq.{nat_eq, list_eq}
use dinari_blockchain_hub.Base.Map.{lookup, lookup-insert}
use dinari_blockchain_hub.Util.Serialize
use dinari_blockchain_hub.Util.Serialize.{Bytes, size_mod}
use dinari_blockchain_hub.Crypto.Hash.{double_sha256, compute_hash160}
use dinari_blockchain_hub.Core.Amount.{money_range}
use dinari_blockchain_hub.Core.OutPoint
use dinari_blockchain_hub.Core.OutPoint.{OutPoint}
use dinari_blockchain_hub.Core.TxIn
use dinari_blockchain_hub.Core.TxOut
use dinari_blockchain_hub.Core.Transaction
use dinari_blockchain_hub.Core.Transaction.{Transaction, get_hash}
use dinari_blockchain_hub.Core.Fees.{get_fee}
use dinari_blockchain_hub.Core.Utxo.{UtxoSet}
use dinari_blockchain_hub.Core.Mempool.{
  MemPool, MemPoolEntry, Run, done, new_mem_pool, max_mempool_size, get_fee_rate,
  get_transactions_for_mining, new_entry, store_entry, add_transaction, check_for_conflicts,
  remove_conflicts,
}
use dinari_blockchain_hub.Core.Mempool.Consistency.{claims, Rates, IsConsistent}
use dinari_blockchain_hub.Core.Mempool.History.{
  Reach, empty_pool, then_step, adding, Reach-IsConsistent,
}
use dinari_blockchain_hub.Core.Utxo
use dinari_blockchain_hub.Core.Fees
use dinari_blockchain_hub.Core.Mempool
use dinari_blockchain_hub.Core.Script
use dinari_blockchain_hub.Consensus.Validation
use dinari_blockchain_hub.Core.Mempool.Conflicts.{
  pooled_once, added_transaction, check_for_conflicts_iff, check_for_conflicts-remove_conflicts,
  second_spender_refused,
}
use dinari_blockchain_hub.Core.Mempool.Mining.{
  IsSelection, get_transactions_for_mining-IsSelection, add_transaction_full,
}
use dinari_blockchain_hub.Core.Mempool.Steps.{new_mem_pool-IsConsistent}
use dinari_blockchain_hub.Tests.Data.{toy, coins, funding, funding_entry, payment, key_script}

abbrev rich_coins : UtxoSet
rich_coins = record coins {
  utxos =
      (
        funding,
        record funding_entry {
          output = record { value = 10_000_000; script_pub_key = key_script };
        },
      )
      ∷ [];
}

-- The fee is much of the value.
abbrev generous : Transaction
generous = record payment {
  outputs = record { value = 4_000_000; script_pub_key = key_script } ∷ [];
}

abbrev pool : MemPool
pool =
    store_entry (get_hash toy generous) (new_entry 0 generous (get_fee generous rich_coins))
      new_mem_pool

generous_added : add_transaction true toy 0 generous rich_coins 2 new_mem_pool ≡ done (true, pool)
unfolding add_transaction Transaction.is_standard Transaction.outputs_standard
    Transaction.inputs_standard Mempool.has_transaction Mempool.validate_for_mempool get_fee
    Fees.get_input_value Validation.validate_transaction lookup Validation.check_inputs
    Validation.check_outputs Validation.check_transaction_inputs Validation.inputs_distinct
    Validation.quick_transaction_check Validation.seen_before money_range OutPoint.is_null
    Script.delete_matches Script.execute_opcode Script.execute_script Script.find_and_delete
    Script.matches_at Script.op_check_sig Script.op_equal_case Script.run Script.signature_push
    Script.signature_valid Script.verify Transaction.coinbase_inputs_valid
    Transaction.get_output_value Transaction.get_signature_hash Transaction.no_null_prevouts
    Transaction.outputs_valid Transaction.signature_preimage Transaction.sum_outputs
    Transaction.write_inputs Transaction.write_outputs Transaction.write_signed_inputs
    Utxo.get_utxo_entry Utxo.is_mature Utxo.is_spendable compute_hash160 double_sha256
    Transaction.is_valid Transaction.is_coinbase TxIn.is_coinbase TxOut.is_valid
    Transaction.get_size Transaction.serialize Serialize.write_uint32 TxOut.serialize
    Serialize.write_bytes Serialize.write_compact_size Serialize.write_varint Serialize.write_uint8
    Serialize.write_uint64 TxIn.serialize OutPoint.serialize Serialize.write_hash256
    Serialize.le_bytes Serialize.le_value Serialize.write_uint16 TxOut.is_dust
generous_added = refl

pool_reached : Reach toy pool
pool_reached = then_step empty_pool (adding true 0 generous rich_coins 2 true generous_added)

entry_found :
    lookup (get_hash toy generous) pool.transactions
    ≡ some (new_entry 0 generous (get_fee generous rich_coins))
entry_found =
    added_transaction true toy new_mem_pool pool 0 generous rich_coins 2
      (new_mem_pool-IsConsistent toy) generous_added

generous_claims : claims funding generous.inputs ≡ true
unfolding claims TxIn.is_coinbase
generous_claims = refl

Reach-IsConsistent_example : IsConsistent toy pool
Reach-IsConsistent_example = Reach-IsConsistent toy pool pool_reached

pooled_once_example : get_hash toy generous ≡ get_hash toy generous
unfolding new_entry
pooled_once_example =
    pooled_once toy pool funding (get_hash toy generous) (get_hash toy generous)
      (new_entry 0 generous (get_fee generous rich_coins))
      (new_entry 0 generous (get_fee generous rich_coins)) pool_reached entry_found entry_found
      generous_claims generous_claims

check_for_conflicts_iff_example :
    (check_for_conflicts payment pool ≡ true)
    ↔ (o : OutPoint) × (h : Bytes) × (e : MemPoolEntry) × (lookup h pool.transactions ≡ some e)
      × (claims o e.tx.inputs ≡ true)
      × (claims o payment.inputs ≡ true)
check_for_conflicts_iff_example =
    check_for_conflicts_iff toy pool payment Reach-IsConsistent_example

check_for_conflicts-remove_conflicts_example :
    check_for_conflicts payment (remove_conflicts payment pool) ≡ false
check_for_conflicts-remove_conflicts_example =
    check_for_conflicts-remove_conflicts toy pool payment pool_reached

second_spender_refused_example :
    add_transaction true toy 9 payment rich_coins 3 pool ≡ done (false, pool)
unfolding new_entry
second_spender_refused_example =
    second_spender_refused true toy pool 9 payment rich_coins 3 funding (get_hash toy generous)
      (new_entry 0 generous (get_fee generous rich_coins)) Reach-IsConsistent_example entry_found
      generous_claims generous_claims

empty_lookup : (h : Bytes) → lookup {V = MemPoolEntry} h [] ≡ none
unfolding lookup
empty_lookup h = refl

generous_size : Transaction.get_size generous ≡ 94
unfolding Transaction.get_size Transaction.serialize Serialize.write_uint32 TxOut.serialize
    Serialize.write_bytes Serialize.write_compact_size Serialize.write_varint Serialize.write_uint8
    Serialize.write_uint64 TxIn.serialize OutPoint.serialize Serialize.write_hash256
    Serialize.le_bytes Serialize.write_uint16 Transaction.write_inputs Transaction.write_outputs
generous_size = refl

entry_size : (new_entry 0 generous (get_fee generous rich_coins)).size ≡ 94
unfolding new_entry
entry_size = generous_size

pool_fits :
    (h : Bytes) (e : MemPoolEntry) → lookup h pool.transactions ≡ some e → 1000 + e.size < size_mod
unfolding store_entry Mempool.add_to_indices
pool_fits h e found =
    let e0 = new_entry 0 generous (get_fee generous rich_coins) in
    ground (arith, found, lookup-insert (get_hash toy generous) h e0 [], entry_size, empty_lookup h)

get_transactions_for_mining-IsSelection_example :
    IsSelection pool 1000 5 (get_transactions_for_mining (λ l. l) 1000 5 pool)
get_transactions_for_mining-IsSelection_example =
    get_transactions_for_mining-IsSelection toy pool 1000 5 (λ l. l) pool_reached pool_fits

-- One entry that fills the pool by itself.
abbrev full_pool : MemPool
full_pool = record {
  transactions =
      (funding.tx_hash, record { tx = payment; time_added = 0; fee = 0; size = max_mempool_size })
      ∷ [];
  input_index = [];
  fee_index = (0, funding.tx_hash) ∷ [];
  total_size = max_mempool_size;
  total_fees = 0;
}

full_pool_rated : All (Rates full_pool.transactions) full_pool.fee_index
unfolding get_fee_rate lookup
full_pool_rated =
    ((record { tx = payment; time_added = 0; fee = 0; size = max_mempool_size }, refl, refl), tt)

add_transaction_full_example :
    add_transaction true toy 0 generous rich_coins 2 full_pool ≢ done (true, full_pool)
add_transaction_full_example =
    add_transaction_full toy full_pool full_pool 0 generous rich_coins 2 full_pool_rated (λ e. cc e)
      (omega arith) (omega (arith, generous_size)) (omega (arith, generous_size))
