-- ===== src/Tests/Utxo.antt =====
-- The theorems on the unspent outputs, at the data.
use dinari_blockchain_hub.Base.{
  ◌+◌, inl, inr, ◌≡◌, ◌↔◌, refl, ap, ◌∙◌, true, false, none, some, arith, All,
}
use dinari_blockchain_hub.Base.Eq.{=?_cases}
use dinari_blockchain_hub.Base.Map.{lookup, erase, HasUniqueKeys}
use dinari_blockchain_hub.Core.OutPoint.{OutPoint, out_point_eq}
use dinari_blockchain_hub.Core.TxIn
use dinari_blockchain_hub.Core.TxOut
use dinari_blockchain_hub.Core.OutPoint
use dinari_blockchain_hub.Core.Transaction
use dinari_blockchain_hub.Util.Serialize
use dinari_blockchain_hub.Crypto.Hash.{double_sha256}
use dinari_blockchain_hub.Core.Transaction.{
  is_valid, get_hash, is_coinbase, get_output_value, serialize,
}
use dinari_blockchain_hub.Core.Transaction.Validity.{total_value}
use dinari_blockchain_hub.Core.Utxo.{
  UtxoEntry, apply_transaction, revert_transaction, get_utxos_for_address, is_mature, is_spendable,
  validate_transaction, extract_address_from_script,
}
use dinari_blockchain_hub.Core.Utxo.Apply.{
  AllPresent, Distinct, spent, after, apply_transaction_iff, apply_transaction-refines-after,
}
use dinari_blockchain_hub.Core.Utxo.Revert.{names_output, revert_transaction-apply_transaction}
use dinari_blockchain_hub.Core.Utxo.Value.{value_of, input_value, Fresh, apply_transaction-value}
use dinari_blockchain_hub.Core.Utxo.Maturity.{validate_transaction-repeated_input}
use dinari_blockchain_hub.Core.Utxo.Address.{
  IsIndexed, Finds, listed, apply_transaction-IsIndexed, get_utxos_for_address_complete,
}
use dinari_blockchain_hub.Tests.Data.{
  toy, funding, funding_entry, coins, payment, greedy, spending, key_hash,
}

abbrev e_late : UtxoEntry
e_late = record funding_entry { height = 100; from_coinbase = true }

coins_keys : HasUniqueKeys coins.utxos
unfolding lookup
coins_keys = (refl, tt)

payment_regular : is_coinbase payment ≡ false
unfolding is_coinbase TxIn.is_coinbase
payment_regular = refl

greedy_regular : is_coinbase greedy ≡ false
unfolding is_coinbase TxIn.is_coinbase
greedy_regular = refl

payment_valid : is_valid payment ≡ true
unfolding is_valid is_coinbase TxIn.is_coinbase TxOut.is_valid Transaction.get_size serialize
    Serialize.write_uint32 TxOut.serialize Serialize.write_bytes Serialize.write_compact_size
    Serialize.write_varint Serialize.write_uint8 Serialize.write_uint64 TxIn.serialize
    OutPoint.serialize Serialize.write_hash256 Serialize.le_bytes
payment_valid = refl

greedy_valid : is_valid greedy ≡ true
unfolding is_valid is_coinbase TxIn.is_coinbase TxOut.is_valid Transaction.get_size serialize
    Serialize.write_uint32 TxOut.serialize Serialize.write_bytes Serialize.write_compact_size
    Serialize.write_varint Serialize.write_uint8 Serialize.write_uint64 TxIn.serialize
    OutPoint.serialize Serialize.write_hash256 Serialize.le_bytes
greedy_valid = refl

payment_applies : (apply_transaction toy payment 2 coins).0 ≡ true
unfolding apply_transaction is_coinbase TxIn.is_coinbase lookup
payment_applies = refl

greedy_fails : (apply_transaction toy greedy 2 coins).0 ≡ false
unfolding apply_transaction is_coinbase TxIn.is_coinbase lookup erase
greedy_fails = refl

funding_found : lookup funding coins.utxos ≡ some funding_entry
unfolding lookup
funding_found = refl

-- The outputs of the payment are new: the one that is there has another hash.
payment-Fresh : Fresh (get_hash toy payment) 0 payment.outputs coins.utxos
unfolding names_output get_hash double_sha256 lookup serialize Serialize.write_uint32
    TxOut.serialize Serialize.write_bytes Serialize.write_compact_size Serialize.write_varint
    Serialize.write_uint8 Serialize.write_uint64 TxIn.serialize OutPoint.serialize
    Serialize.write_hash256 Serialize.le_bytes
payment-Fresh o e = elim (=?_cases funding o) [
  | inl (same, p) ↦ absurd (cc (rw (← p) at e))
  | inr (other, p) ↦ ground (arith, other)
]

coins-IsIndexed : IsIndexed coins
unfolding listed lookup extract_address_from_script
coins-IsIndexed o e addr found pays = elim (=?_cases funding o) [
  | inl (same, p) ↦
      let here : some funding_entry ≡ some e = rw (← p) at found in
      let at_key : some key_hash ≡ some addr =
        ap
          (λ r. elim r [
            | none ↦ none
            | some f ↦ extract_address_from_script f.output.script_pub_key
          ])
          here
        ∙ pays in
      let key : key_hash ≡ addr = cc at_key in rw (← p, ← key) refl
  | inr (other, p) ↦ absurd (ground (arith, other, found))
]

apply_transaction-refines-after_example :
    lookup funding (apply_transaction toy payment 2 coins).1.utxos
    ≡ after toy payment 2 (λ q. lookup q coins.utxos) funding
apply_transaction-refines-after_example =
    apply_transaction-refines-after toy payment 2 coins funding coins_keys (omega arith)
      payment_applies

apply_transaction_iff_example :
    ((apply_transaction toy payment 2 coins).0 ≡ true)
    ↔ (AllPresent coins.utxos (spent payment) × Distinct (spent payment))
apply_transaction_iff_example = apply_transaction_iff toy payment 2 coins coins_keys

apply_transaction-value_example :
    value_of (apply_transaction toy payment 2 coins).1.utxos
      + input_value coins.utxos (spent payment)
    ≡ value_of coins.utxos + total_value payment.outputs
apply_transaction-value_example =
    apply_transaction-value toy payment 2 coins coins_keys (omega arith) payment-Fresh
      payment_applies

revert_transaction-apply_transaction_example :
    lookup funding
      (revert_transaction toy payment coins.utxos (apply_transaction toy payment 2 coins).1).1.utxos
    ≡ lookup funding coins.utxos
revert_transaction-apply_transaction_example =
    revert_transaction-apply_transaction toy payment 2 coins coins.utxos coins_keys (omega arith)
      payment_applies (λ o e. refl) payment-Fresh funding

payment_validates : validate_transaction payment 2 coins ≡ true
unfolding validate_transaction is_valid is_coinbase TxIn.is_coinbase lookup get_output_value
    is_mature TxOut.is_valid Transaction.get_size serialize Serialize.write_uint32 TxOut.serialize
    Serialize.write_bytes Serialize.write_compact_size Serialize.write_varint Serialize.write_uint8
    Serialize.write_uint64 TxIn.serialize OutPoint.serialize Serialize.write_hash256
    Serialize.le_bytes
payment_validates = refl

validate_transaction-repeated_input_example :
    (validate_transaction greedy 2 coins ≡ true)
    × ((apply_transaction toy greedy 2 coins).0 ≡ false)
unfolding is_spendable get_output_value
validate_transaction-repeated_input_example =
    validate_transaction-repeated_input toy greedy 2 2 coins spending spending funding_entry
      coins_keys greedy_valid refl refl funding_found refl (omega arith) (omega arith)

get_utxos_for_address_complete_example :
    Finds funding funding_entry (get_utxos_for_address key_hash coins)
    × All (λ r. lookup r.0 coins.utxos ≡ some r.1) (get_utxos_for_address key_hash coins)
unfolding extract_address_from_script
get_utxos_for_address_complete_example =
    get_utxos_for_address_complete key_hash coins funding funding_entry coins-IsIndexed
      funding_found refl

apply_transaction-IsIndexed_example : IsIndexed (apply_transaction toy payment 2 coins).1
apply_transaction-IsIndexed_example =
    apply_transaction-IsIndexed toy payment 2 coins coins_keys coins-IsIndexed
