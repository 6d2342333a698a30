-- ===== src/Tests/Consensus.antt =====
-- The theorems on the validation of transactions and blocks, at the data.
use dinari_blockchain_hub.Base.{
  ◌+◌, ◌*◌, ◌^◌, ◌≤◌, ◌≡◌, ◌↔◌, inl, inr, refl, true, false, none, some, [], ◌∷◌, arith, All,
}
use dinari_blockchain_hub.Base.Eq.{=?_cases}
use dinari_blockchain_hub.Base.Map.{lookup, HasUniqueKeys}
use dinari_blockchain_hub.Util.Serialize
use dinari_blockchain_hub.Util.Serialize.{le_value}
use dinari_blockchain_hub.Crypto.Hash.{double_sha256, merkle_hash, compute_hash160}
use dinari_blockchain_hub.Crypto.ProofOfWork.{target_number, compact_to_target, check_proof_of_work}
use dinari_blockchain_hub.Core.Amount.{max_money, money_range}
use dinari_blockchain_hub.Core.OutPoint
use dinari_blockchain_hub.Core.OutPoint.{out_point_eq}
use dinari_blockchain_hub.Core.TxIn
use dinari_blockchain_hub.Core.TxOut
use dinari_blockchain_hub.Core.Transaction
use dinari_blockchain_hub.Core.Transaction.{
  Transaction, is_coinbase, get_output_value, get_hash, is_valid,
}
use dinari_blockchain_hub.Core.Fees.{get_fee}
use dinari_blockchain_hub.Core.Utxo.{
  apply_transaction, is_mature, is_spendable, get_utxo_entry, get_utxo,
}
use dinari_blockchain_hub.Core.Utxo.Apply.{Distinct, spends}
use dinari_blockchain_hub.Core.Utxo.Value.{value_of, input_value, Fresh}
use dinari_blockchain_hub.Core.Utxo.Revert.{names_output}
use dinari_blockchain_hub.Core.Script
use dinari_blockchain_hub.Blockchain.Merkle.{compute_merkle_root, next_level, top_level}
use dinari_blockchain_hub.Blockchain.Block
use dinari_blockchain_hub.Blockchain.Block.{get_total_fees, check_transactions}
use dinari_blockchain_hub.Consensus.Validation
use dinari_blockchain_hub.Consensus.Validation.{
  validate_transaction, validate_transactions, validate_block, minted, previous_supply,
}
use dinari_blockchain_hub.Consensus.Validation.Inputs.{
  Authorised, ValuesInRange, validate_transaction_iff, validate_transaction-value,
}
use dinari_blockchain_hub.Consensus.Validation.Conflicts.{validate_transactions_conflict}
use dinari_blockchain_hub.Consensus.Validation.Issuance.{Admitted, validate_block_sound}
use dinari_blockchain_hub.Tests.Data.{
  toy, coins, funding, funding_entry, payment, coinbase, block, genesis_index,
}

coins_in_range : ValuesInRange coins
unfolding lookup
coins_in_range o e found = elim (=?_cases funding o) [
  | inl (same, p) ↦
      let here : some funding_entry ≡ some e = rw (← p) at found in
      let entry : funding_entry ≡ e = cc here in rw (← entry) (omega arith)
  | inr (other, p) ↦ absurd (ground (arith, other, found))
]

coins_keys : HasUniqueKeys coins.utxos
unfolding lookup
coins_keys = (refl, tt)

-- Another transaction that spends what the payment spends.
abbrev rival : Transaction
rival = record payment { outputs = record { value = 30; script_pub_key = [] } ∷ [] }

payment_regular : is_coinbase payment ≡ false
unfolding is_coinbase TxIn.is_coinbase
payment_regular = refl

payment-Fresh : Fresh (get_hash toy payment) 0 payment.outputs coins.utxos
unfolding names_output get_hash double_sha256 lookup Transaction.serialize Serialize.write_uint32
    TxOut.serialize Serialize.write_bytes Serialize.write_compact_size Serialize.write_varint
    Serialize.write_uint8 Serialize.write_uint64 TxIn.serialize OutPoint.serialize
    Serialize.write_hash256 Serialize.le_bytes
payment-Fresh o e = elim (=?_cases funding o) [
  | inl (same, p) ↦ absurd (cc (rw (← p) at e))
  | inr (other, p) ↦ ground (arith, other)
]

payment_validates : validate_transaction toy payment 2 coins true ≡ none
unfolding validate_transaction lookup Validation.check_inputs Validation.check_outputs
    Validation.check_transaction_inputs Validation.inputs_distinct
    Validation.quick_transaction_check Validation.seen_before money_range OutPoint.is_null
    Script.delete_matches Script.execute_opcode Script.execute_script Script.find_and_delete
    Script.matches_at Script.op_check_sig Script.op_equal_case Script.run Script.signature_push
    Script.signature_valid Script.verify Transaction.coinbase_inputs_valid get_output_value
    Transaction.get_signature_hash Transaction.no_null_prevouts Transaction.outputs_valid
    Transaction.signature_preimage Transaction.sum_outputs Transaction.write_inputs
    Transaction.write_outputs Transaction.write_signed_inputs get_utxo_entry is_mature is_spendable
    compute_hash160 double_sha256 is_valid is_coinbase TxIn.is_coinbase TxOut.is_valid
    Transaction.get_size Transaction.serialize Serialize.write_uint32 TxOut.serialize
    Serialize.write_bytes Serialize.write_compact_size Serialize.write_varint Serialize.write_uint8
    Serialize.write_uint64 TxIn.serialize OutPoint.serialize Serialize.write_hash256
    Serialize.le_bytes Serialize.le_value Serialize.write_uint16
payment_validates = refl

rival_validates : validate_transaction toy rival 2 coins true ≡ none
unfolding validate_transaction lookup Validation.check_inputs Validation.check_outputs
    Validation.check_transaction_inputs Validation.inputs_distinct
    Validation.quick_transaction_check Validation.seen_before money_range OutPoint.is_null
    Script.delete_matches Script.execute_opcode Script.execute_script Script.find_and_delete
    Script.matches_at Script.op_check_sig Script.op_equal_case Script.run Script.signature_push
    Script.signature_valid Script.verify Transaction.coinbase_inputs_valid get_output_value
    Transaction.get_signature_hash Transaction.no_null_prevouts Transaction.outputs_valid
    Transaction.signature_preimage Transaction.sum_outputs Transaction.write_inputs
    Transaction.write_outputs Transaction.write_signed_inputs get_utxo_entry is_mature is_spendable
    compute_hash160 double_sha256 is_valid is_coinbase TxIn.is_coinbase TxOut.is_valid
    Transaction.get_size Transaction.serialize Serialize.write_uint32 TxOut.serialize
    Serialize.write_bytes Serialize.write_compact_size Serialize.write_varint Serialize.write_uint8
    Serialize.write_uint64 TxIn.serialize OutPoint.serialize Serialize.write_hash256
    Serialize.le_bytes Serialize.le_value Serialize.write_uint16
rival_validates = refl

block_validates : validate_block toy 1000 (3 * 2 ^ 24 + 1) block (some genesis_index) 2 coins ≡ none
unfolding validate_block validate_transactions get_total_fees get_fee get_utxo
    Transaction.get_block_reward minted Validation.validate_money_supply
    Validation.validate_coinbase Validation.validate_block_sig_ops Validation.validate_block_size
    Validation.validate_block_header Validation.quick_block_check Transaction.is_final
    Block.is_valid check_proof_of_work Transaction.serialize TxOut.is_valid Block.serialize
    Block.serialize_header Block.all_valid Block.calculate_merkle_root Block.check_merkle_root
    check_transactions Block.count Block.get_size Block.hashes_distinct Block.header_hash
    Block.header_valid Block.is_in_future Block.no_coinbase Block.write_transactions
    compute_merkle_root next_level top_level money_range OutPoint.is_null
    Transaction.coinbase_inputs_valid get_hash Transaction.get_size is_coinbase is_valid
    Transaction.no_null_prevouts Transaction.outputs_valid Transaction.write_inputs
    Transaction.write_outputs TxIn.is_coinbase merkle_hash double_sha256 compact_to_target
    target_number validate_transaction lookup Validation.check_inputs Validation.check_outputs
    Validation.check_transaction_inputs Validation.inputs_distinct
    Validation.quick_transaction_check Validation.seen_before Script.delete_matches
    Script.execute_opcode Script.execute_script Script.find_and_delete Script.matches_at
    Script.op_check_sig Script.op_equal_case Script.run Script.signature_push Script.signature_valid
    Script.verify get_output_value Transaction.get_signature_hash Transaction.signature_preimage
    Transaction.sum_outputs Transaction.write_signed_inputs get_utxo_entry is_mature is_spendable
    compute_hash160 Serialize.write_uint32 TxOut.serialize Serialize.write_bytes
    Serialize.write_compact_size Serialize.write_varint Serialize.write_uint8 Serialize.write_uint64
    TxIn.serialize OutPoint.serialize Serialize.write_hash256 Serialize.le_bytes Serialize.le_value
    Serialize.write_uint16
block_validates = refl

validate_transaction_iff_example : (validate_transaction toy payment 2 coins true ≡ none) ↔ (
    (is_valid payment ≡ true)
    × Distinct payment.inputs
    × Authorised toy payment 2 coins 0 payment.inputs
    × (input_value coins.utxos payment.inputs ≤ max_money)
    × (get_output_value payment ≤ input_value coins.utxos payment.inputs))
validate_transaction_iff_example =
    validate_transaction_iff toy payment 2 coins coins_in_range true payment_regular

validate_transaction-value_example :
    ((apply_transaction toy payment 2 coins).0 ≡ true)
    × (value_of (apply_transaction toy payment 2 coins).1.utxos + get_fee payment coins
        ≡ value_of coins.utxos)
validate_transaction-value_example =
    validate_transaction-value toy payment 2 coins true coins_in_range coins_keys (omega arith)
      payment-Fresh payment_regular payment_validates

validate_block_sound_example :
    (get_output_value coinbase ≤ Transaction.get_block_reward 2 + get_total_fees block coins)
    × (minted coinbase (get_total_fees block coins) ≤ Transaction.get_block_reward 2)
    × (previous_supply (some genesis_index) + minted coinbase (get_total_fees block coins)
        ≤ max_money)
    × All (Admitted toy 2 block.header.timestamp coins) (payment ∷ [])
unfolding Transaction.get_block_reward get_total_fees get_fee is_coinbase TxIn.is_coinbase lookup
    get_output_value
validate_block_sound_example =
    validate_block_sound toy 1000 (3 * 2 ^ 24 + 1) block (some genesis_index) 2 coins coinbase
      (payment ∷ []) refl (omega arith) block_validates

rival_regular : is_coinbase rival ≡ false
unfolding is_coinbase TxIn.is_coinbase
rival_regular = refl

payment_final : Transaction.is_final 2 1000 payment ≡ true
unfolding Transaction.is_final
payment_final = refl

rival_final : Transaction.is_final 2 1000 rival ≡ true
unfolding Transaction.is_final
rival_final = refl

validate_transactions_conflict_example :
    (validate_transactions toy 2 1000 coins (payment ∷ rival ∷ []) ≡ none)
    × ((apply_transaction toy rival 2 (apply_transaction toy payment 2 coins).1).0 ≡ false)
unfolding names_output spends get_hash double_sha256 lookup apply_transaction is_coinbase
    TxIn.is_coinbase Transaction.serialize Serialize.write_uint32 TxOut.serialize
    Serialize.write_bytes Serialize.write_compact_size Serialize.write_varint Serialize.write_uint8
    Serialize.write_uint64 TxIn.serialize OutPoint.serialize Serialize.write_hash256
    Serialize.le_bytes
validate_transactions_conflict_example =
    validate_transactions_conflict toy 2 1000 coins payment rival funding coins_keys (omega arith)
      (payment_regular, payment_validates, payment_final)
      (rival_regular, rival_validates, rival_final) refl refl refl refl
