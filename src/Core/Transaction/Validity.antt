-- ===== src/Core/Transaction/Validity.antt =====
-- Transaction::IsValid (src/core/transaction.cpp) against a declarative description, with the sum
-- of the outputs taken in unbounded numbers.
use dinari_blockchain_hub.Base.{
  ℕ, ◌+◌, ◌≤◌, ◌<◌, ◌≡◌, ◌≢◌, ◌↔◌, refl, true, false, List, [], ◌∷◌, arith, length, All,
}
use dinari_blockchain_hub.Core.Amount.{
  max_money, max_block_size, money_range, amount_mod, add_amount,
}
use dinari_blockchain_hub.Core.OutPoint
use dinari_blockchain_hub.Core.TxOut.{TxOut}
use dinari_blockchain_hub.Core.TxOut
use dinari_blockchain_hub.Core.TxIn.{TxIn}
use dinari_blockchain_hub.Core.Transaction.{
  Transaction, is_valid, outputs_valid, no_null_prevouts, coinbase_inputs_valid, is_coinbase,
  get_size, sum_outputs, get_output_value,
}

-- The value of the outputs, with no wrap.
unfoldable pub total_value : List TxOut → ℕ
total_value [] = 0
total_value (o ∷ os) = o.value + total_value os

abbrev pub OutputOk : TxOut → Type 0
OutputOk o = (o.value ≤ max_money) × (length o.script_pub_key ≤ 10000)

pub outputs_valid_sound :
    (acc : ℕ) (os : List TxOut)
    → acc ≤ max_money
    → outputs_valid acc os ≡ true
    → All OutputOk os × (acc + total_value os ≤ max_money)
unfolding outputs_valid total_value TxOut.is_valid money_range
outputs_valid_sound acc [] h e = (tt, omega arith)
outputs_valid_sound acc (o ∷ os) h e =
    ground (arith, outputs_valid_sound (add_amount acc o.value) os)

pub outputs_valid_complete :
    (acc : ℕ) (os : List TxOut)
    → All OutputOk os
    → acc + total_value os ≤ max_money
    → outputs_valid acc os ≡ true
unfolding outputs_valid total_value TxOut.is_valid money_range
outputs_valid_complete acc [] a h = refl
outputs_valid_complete acc (o ∷ os) a h =
    ground (arith, outputs_valid_complete (add_amount acc o.value) os a.1)

pub sum_outputs-eq-total :
    (acc : ℕ) (os : List TxOut)
    → acc + total_value os < amount_mod
    → sum_outputs acc os ≡ acc + total_value os
unfolding sum_outputs total_value
sum_outputs-eq-total acc [] h = omega arith
sum_outputs-eq-total acc (o ∷ os) h =
    ground (arith, sum_outputs-eq-total (add_amount acc o.value) os)

no_null_prevouts_iff :
    (is : List TxIn)
    → (no_null_prevouts is ≡ true) ↔ All (λ i. OutPoint.is_null i.prev_out ≡ false) is
unfolding no_null_prevouts
no_null_prevouts_iff [] = (λ _. tt, λ _. refl)
no_null_prevouts_iff (i ∷ is) = ground (arith, no_null_prevouts_iff is)

-- The inputs of a coinbase: one, with a script of 2 to 100 bytes.
abbrev pub CoinbaseInputs : List TxIn → Type 0
CoinbaseInputs [] = ⊥
CoinbaseInputs (i ∷ is) = (is ≡ []) × (2 ≤ length i.script_sig) × (length i.script_sig ≤ 100)

coinbase_inputs_valid_iff : (is : List TxIn) → (coinbase_inputs_valid is ≡ true) ↔ CoinbaseInputs is
unfolding coinbase_inputs_valid
coinbase_inputs_valid_iff [] = (λ h. cc, λ h. absurd h)
coinbase_inputs_valid_iff (i ∷ []) = ground arith
coinbase_inputs_valid_iff (i ∷ j ∷ is) = ground arith

-- A valid transaction, in words: version 1 or 2; an input and an output; outputs in range whose
-- true sum is in range; a coinbase script of 2 to 100 bytes, or no null reference; a bounded size.
pub record ValidTransaction (tx : Transaction) : Type 0 where
  pub version_low : 1 ≤ tx.version
  pub version_high : tx.version ≤ 2
  pub has_inputs : tx.inputs ≢ []
  pub has_outputs : tx.outputs ≢ []
  pub outputs_ok : All OutputOk tx.outputs
  pub total_in_range : total_value tx.outputs ≤ max_money
  pub coinbase_inputs : is_coinbase tx ≡ true → CoinbaseInputs tx.inputs
  pub spends_outputs :
      is_coinbase tx ≡ false → All (λ i. OutPoint.is_null i.prev_out ≡ false) tx.inputs
  pub size_in_range : get_size tx ≤ max_block_size

is_valid_sound : (tx : Transaction) → is_valid tx ≡ true → ValidTransaction tx
unfolding is_valid
is_valid_sound tx e = ground (
  arith,
  outputs_valid_sound 0 tx.outputs (omega arith),
  coinbase_inputs_valid_iff tx.inputs,
  no_null_prevouts_iff tx.inputs,
)

is_valid_complete : (tx : Transaction) → ValidTransaction tx → is_valid tx ≡ true
unfolding is_valid
is_valid_complete tx v = ground (
  arith,
  outputs_valid_complete 0 tx.outputs v.outputs_ok,
  coinbase_inputs_valid_iff tx.inputs,
  no_null_prevouts_iff tx.inputs,
)

-- IsValid answers true exactly for the transactions of the description ValidTransaction, where the
-- sum of the outputs is taken in unbounded numbers while the running sum of the code wraps at
-- 2^64.
pub is_valid-iff-ValidTransaction : (tx : Transaction) → (is_valid tx ≡ true) ↔ ValidTransaction tx
is_valid-iff-ValidTransaction tx = (is_valid_sound tx, is_valid_complete tx)

-- For a valid transaction GetOutputValue is the true sum of its outputs, and in range.
pub get_output_value-ValidTransaction :
    (tx : Transaction)
    → is_valid tx ≡ true
    → (get_output_value tx ≡ total_value tx.outputs) × (get_output_value tx ≤ max_money)
unfolding get_output_value
get_output_value-ValidTransaction tx e =
    let v = is_valid_sound tx e in
    omega
      (arith, v.total_in_range, sum_outputs-eq-total 0 tx.outputs (omega (arith, v.total_in_range)))
