-- ===== src/Consensus/Validation.antt =====
-- src/consensus/validation.h and validation.cpp: ConsensusValidator and ContextCheckValidator. A
-- ValidationResult is `none` where it is valid and the reason where it is not. `now` is the clock's
-- answer, and `expected_bits` that of DifficultyCalculator::GetExpectedDifficulty.
pub mod Inputs
pub mod Issuance
pub mod Conflicts
use dinari_blockchain_hub.Base.{
  ℕ, zero, suc, ◌+◌, ◌-◌, ◌*◌, ◌%◌, ◌^◌, Bool, true, false, not, ◌&&◌, ◌||◌, Option, none, some,
  List, [], ◌∷◌, ltb, leb, ◌==◌, if◌then◌else◌, length,
}
use dinari_blockchain_hub.Base.Eq.{list_beq, nat_eq}
use dinari_blockchain_hub.Util.Serialize.{Bytes}
use dinari_blockchain_hub.Crypto.Hash.{Primitives, zero_hash}
use dinari_blockchain_hub.Crypto.ProofOfWork.{check_proof_of_work}
use dinari_blockchain_hub.Core.Amount.{
  add_amount, money_range, max_money, max_block_size, max_block_sigops,
}
use dinari_blockchain_hub.Core.OutPoint.{OutPoint, beq}
use dinari_blockchain_hub.Core.TxOut.{TxOut}
use dinari_blockchain_hub.Core.TxIn.{TxIn}
use dinari_blockchain_hub.Core.Transaction
use dinari_blockchain_hub.Core.Transaction.{
  Transaction, empty, is_coinbase, is_final, get_output_value,
}
use dinari_blockchain_hub.Core.Utxo.{UtxoSet, get_utxo_entry, is_spendable}
use dinari_blockchain_hub.Core.Script
use dinari_blockchain_hub.Core.Script.{Run, ok, fail, ScriptError}
use dinari_blockchain_hub.Blockchain.Block
use dinari_blockchain_hub.Blockchain.Block.{
  Block, BlockHeader, header_hash, is_in_future, no_coinbase, get_size, get_total_fees,
  check_merkle_root,
}

-- The reasons, by their texts.
pub data Invalid : Type 0 where
  block_failed header_failed block_empty first_not_coinbase multiple_coinbase : Invalid
  transaction_failed duplicate_input coinbase_outside_block : Invalid
  input_missing input_immature input_overflow outputs_exceed_inputs : Invalid
  script_failed : ScriptError → Invalid
  not_coinbase coinbase_too_much coinbase_script_size : Invalid
  bad_work bad_bits time_too_new time_too_old bad_version bad_previous : Invalid
  size_too_big size_too_small too_many_sigops not_final bad_merkle_root : Invalid
  supply_out_of_range supply_exceeded : Invalid

abbrev pub ValidationResult : Type 0
ValidationResult = Option Invalid

-- `if (!result) return result;`
infixr 4 ◌then_check◌
abbrev pub ◌then_check◌ : ValidationResult → ValidationResult → ValidationResult
none then_check r = r
some e then_check r = some e

-- set.count
unfoldable pub seen_before : OutPoint → List OutPoint → Bool
seen_before o [] = false
seen_before o (x ∷ xs) = beq o x || seen_before o xs

unfoldable pub inputs_distinct : List OutPoint → List TxIn → Bool
unfolding seen_before
inputs_distinct seen [] = true
inputs_distinct seen (i ∷ is) =
    if seen_before i.prev_out seen then false else inputs_distinct (i.prev_out ∷ seen) is

unfoldable pub quick_transaction_check : Transaction → ValidationResult
unfolding inputs_distinct
quick_transaction_check tx =
    if not (Transaction.is_valid tx)
    then some transaction_failed
    else if not (inputs_distinct [] tx.inputs)
    then some duplicate_input
    else none

unfoldable pub quick_block_check : Primitives → ℕ → Block → ValidationResult
quick_block_check p now b =
    if not (Block.is_valid p now b) then some block_failed else elim b.transactions [
      | [] ↦ some block_empty
      | first ∷ txs ↦
          if not (is_coinbase first)
          then some first_not_coinbase
          else if not (no_coinbase txs)
          then some multiple_coinbase
          else none
    ]

unfoldable pub quick_header_check : Primitives → ℕ → BlockHeader → ValidationResult
quick_header_check p now h = if not (Block.header_valid p now h) then some header_failed else none

-- The end of CheckTransactionInputs, with the sum of the inputs.
unfoldable pub check_outputs : Transaction → ℕ → ValidationResult
check_outputs tx total_in =
    if ltb total_in (get_output_value tx) then some outputs_exceed_inputs else none

-- The loop of CheckTransactionInputs, from input `index` on and with the sum so far.
unfoldable pub check_inputs :
    Primitives → Transaction → ℕ → UtxoSet → ℕ → ℕ → List TxIn → ValidationResult
unfolding check_outputs
check_inputs p tx height u index total [] = check_outputs tx total
check_inputs p tx height u index total (i ∷ is) = elim (get_utxo_entry i.prev_out u) [
  | none ↦ some input_missing
  | some e ↦
      let total = add_amount total e.output.value in
      let rest = check_inputs p tx height u (index + 1) total is in
      if not (is_spendable height e)
      then some input_immature
      else if not (money_range total)
      then some input_overflow
      else elim (Script.verify p i.script_sig e.output.script_pub_key tx index) [
        | fail reason ↦ some (script_failed reason)
        | ok _ ↦ rest
      ]
]

unfoldable pub check_transaction_inputs : Primitives → Transaction → UtxoSet → ℕ → ValidationResult
unfolding check_inputs
check_transaction_inputs p tx u height = check_inputs p tx height u 0 0 tx.inputs

unfoldable pub validate_transaction :
    Primitives → Transaction → ℕ → UtxoSet → Bool → ValidationResult
unfolding quick_transaction_check check_transaction_inputs
validate_transaction p tx height u in_block =
    quick_transaction_check tx
    then_check (if is_coinbase tx && not in_block then some coinbase_outside_block else none)
    then_check (if not (is_coinbase tx) then check_transaction_inputs p tx u height else none)

unfoldable pub validate_coinbase : Transaction → ℕ → ℕ → ValidationResult
validate_coinbase tx block_reward total_fees =
    if not (is_coinbase tx)
    then some not_coinbase
    else if ltb (add_amount block_reward total_fees) (get_output_value tx)
    then some coinbase_too_much
    else elim tx.inputs [
      | [] ↦ some not_coinbase
      | i ∷ is ↦
          if ltb (length i.script_sig) 2 || ltb 100 (length i.script_sig)
          then some coinbase_script_size
          else none
    ]

unfoldable pub validate_block_size : Block → ValidationResult
validate_block_size b =
    if ltb max_block_size (get_size b)
    then some size_too_big
    else if ltb (get_size b) 81
    then some size_too_small
    else none

unfoldable pub script_sig_ops : Bytes → ℕ
script_sig_ops [] = 0
script_sig_ops (b ∷ bs) =
    (if b == 0xac || b == 0xad then 1 else if b == 0xae || b == 0xaf then 20 else 0)
    + script_sig_ops bs

unfoldable pub input_sig_ops : List TxIn → ℕ
unfolding script_sig_ops
input_sig_ops [] = 0
input_sig_ops (i ∷ is) = script_sig_ops i.script_sig + input_sig_ops is

unfoldable pub output_sig_ops : List TxOut → ℕ
unfolding script_sig_ops
output_sig_ops [] = 0
output_sig_ops (o ∷ os) = script_sig_ops o.script_pub_key + output_sig_ops os

unfoldable pub count_sig_ops : Transaction → ℕ
unfolding input_sig_ops output_sig_ops
count_sig_ops tx = input_sig_ops tx.inputs + output_sig_ops tx.outputs

unfoldable pub block_sig_ops : List Transaction → ℕ
unfolding count_sig_ops
block_sig_ops [] = 0
block_sig_ops (tx ∷ txs) = count_sig_ops tx + block_sig_ops txs

unfoldable pub validate_block_sig_ops : Block → ValidationResult
unfolding block_sig_ops
validate_block_sig_ops b =
    if ltb max_block_sigops (block_sig_ops b.transactions) then some too_many_sigops else none

-- What the validator reads of a BlockIndex.
pub record BlockIndex : Type 0 where
  pub block_hash : Bytes
  pub block_time : ℕ
  pub money_supply : ℕ

unfoldable pub validate_block_time : ℕ → ℕ → Option BlockIndex → ValidationResult
validate_block_time now timestamp prev =
    if is_in_future now timestamp (2 * 60 * 60) then some time_too_new else elim prev [
      | none ↦ none
      | some index ↦ if leb timestamp index.block_time then some time_too_old else none
    ]

unfoldable pub validate_block_header :
    Primitives → ℕ → ℕ → BlockHeader → Option BlockIndex → ValidationResult
unfolding validate_block_time
validate_block_header p now expected_bits h prev =
    (if not (check_proof_of_work (header_hash p h) h.bits) then some bad_work else none)
    then_check elim prev [
      | none ↦ none
      | some index ↦ if not (h.bits == expected_bits) then some bad_bits else none
    ]
    then_check validate_block_time now h.timestamp prev
    then_check (if h.version == 0 then some bad_version else none)
    then_check elim prev [
      | none ↦ none
      | some index ↦
          if not (list_beq h.prev_block_hash index.block_hash) then some bad_previous else none
    ]

unfoldable pub validate_money_supply : ℕ → ℕ → ValidationResult
validate_money_supply total_supply newly_minted =
    if not (money_range total_supply) || not (money_range newly_minted)
    then some supply_out_of_range
    else if ltb 0 newly_minted && ltb (max_money - newly_minted) total_supply
    then some supply_exceeded
    else none

-- The loop over the transactions after the coinbase.
unfoldable pub validate_transactions :
    Primitives → ℕ → ℕ → UtxoSet → List Transaction → ValidationResult
unfolding validate_transaction
validate_transactions p height time u [] = none
validate_transactions p height time u (tx ∷ txs) =
    (if is_coinbase tx then some multiple_coinbase else none)
    then_check validate_transaction p tx height u true
    then_check (if not (is_final height time tx) then some not_final else none)
    then_check validate_transactions p height time u txs

unfoldable pub minted : Transaction → ℕ → ℕ
minted coinbase total_fees =
    if ltb total_fees (get_output_value coinbase) then get_output_value coinbase - total_fees else 0

abbrev pub previous_supply : Option BlockIndex → ℕ
previous_supply none = 0
previous_supply (some index) = index.money_supply

-- The part of ValidateBlock behind the checks of the header and of the sizes, on the transactions.
unfoldable pub validate_contents :
    Primitives → Block → Option BlockIndex → ℕ → UtxoSet → ℕ → List Transaction → ValidationResult
unfolding validate_coinbase validate_transactions validate_money_supply minted
validate_contents p b prev height u total_fees [] = some block_empty
validate_contents p b prev height u total_fees (coinbase ∷ txs) =
    (if not (is_coinbase coinbase) then some first_not_coinbase else none)
    then_check validate_coinbase coinbase (Transaction.get_block_reward height) total_fees
    then_check validate_transactions p height b.header.timestamp u txs
    then_check (if not (check_merkle_root p b) then some bad_merkle_root else none)
    then_check validate_money_supply (previous_supply prev) (minted coinbase total_fees)

unfoldable pub validate_block :
    Primitives → ℕ → ℕ → Block → Option BlockIndex → ℕ → UtxoSet → ValidationResult
unfolding quick_block_check validate_block_header validate_block_size validate_block_sig_ops
    validate_contents
validate_block p now expected_bits b prev height u =
    quick_block_check p now b
    then_check validate_block_header p now expected_bits b.header prev
    then_check validate_block_size b
    then_check validate_block_sig_ops b
    then_check validate_contents p b prev height u (get_total_fees b u) b.transactions
