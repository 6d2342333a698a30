-- ===== src/Core/Fees.antt =====
-- src/core/transaction.cpp: GetInputValue and GetFee, on the unspent outputs.
use dinari_blockchain_hub.Base.{ℕ, ◌-◌, List, [], ◌∷◌, none, some, ltb, if◌then◌else◌}
use dinari_blockchain_hub.Core.Amount.{add_amount}
use dinari_blockchain_hub.Core.TxIn.{TxIn}
use dinari_blockchain_hub.Core.Transaction.{Transaction, is_coinbase, get_output_value}
use dinari_blockchain_hub.Core.Utxo.{UtxoSet, get_utxo}

-- A reference to no unspent output counts for nothing.
unfoldable pub add_inputs : ℕ → List TxIn → UtxoSet → ℕ
unfolding get_utxo
add_inputs total [] u = total
add_inputs total (i ∷ is) u = elim (get_utxo i.prev_out u) [
  | none ↦ add_inputs total is u
  | some o ↦ add_inputs (add_amount total o.value) is u
]

unfoldable pub get_input_value : Transaction → UtxoSet → ℕ
unfolding add_inputs
get_input_value tx u = if is_coinbase tx then 0 else add_inputs 0 tx.inputs u

unfoldable pub get_fee : Transaction → UtxoSet → ℕ
unfolding get_input_value
get_fee tx u =
    if is_coinbase tx
    then 0
    else if ltb (get_input_value tx u) (get_output_value tx)
    then 0
    else get_input_value tx u - get_output_value tx
