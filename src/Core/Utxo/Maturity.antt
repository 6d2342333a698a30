-- ===== src/Core/Utxo/Maturity.antt =====
-- UTXOEntry::IsMature and UTXOSet::ValidateTransaction (src/core/utxo.cpp).
use native.Mathlib.Nat.{mod-eq_of_lt}
use dinari_blockchain_hub.Base.{
  ℕ, ◌+◌, ◌-◌, ◌*◌, ◌^◌, ◌≤◌, ◌<◌, ◌≡◌, ◌↔◌, true, false, some, List, [], ◌∷◌, arith, inl, inr,
  Option-cases, Bool-cases,
}
use dinari_blockchain_hub.Base.Map.{lookup, HasUniqueKeys}
use dinari_blockchain_hub.Crypto.Hash.{Primitives}
use dinari_blockchain_hub.Core.Amount.{add_amount, amount_mod, max_money, coinbase_maturity}
use dinari_blockchain_hub.Core.OutPoint.{out_point_eq, beq_iff}
use dinari_blockchain_hub.Core.TxIn.{TxIn}
use dinari_blockchain_hub.Core.Transaction.{Transaction, is_coinbase, is_valid, get_output_value}
use dinari_blockchain_hub.Core.Transaction.Validity.{total_value, get_output_value-ValidTransaction}
use dinari_blockchain_hub.Core.Utxo.{
  UtxoEntry, UtxoSet, is_mature, is_spendable, sum_inputs, validate_transaction, apply_transaction,
}
use dinari_blockchain_hub.Core.Utxo.Apply.{spends, Distinct, AllPresent, apply_transaction_iff}
use dinari_blockchain_hub.Core.Utxo.Value.{input_value, entry_value}

-- At any height below 2^32 and not below that of the entry, an output is mature exactly if it is
-- no coinbase's or has its hundred confirmations.
pub is_mature_iff :
    (current : ℕ) (e : UtxoEntry)
    → current < 2 ^ 32
    → e.height ≤ current
    → (is_mature current e ≡ true)
      ↔ (e.from_coinbase ≡ true → e.height + coinbase_maturity ≤ current)
unfolding is_mature
is_mature_iff current e small le = ground arith

-- At a height below that of the entry, and by no more than 2^32 - 100, the difference wraps and
-- the output counts as mature, a coinbase's too.
pub is_mature-wraps :
    (current : ℕ) (e : UtxoEntry)
    → e.height < 2 ^ 32
    → current < e.height
    → e.height - current ≤ 2 ^ 32 - coinbase_maturity
    → is_mature current e ≡ true
unfolding is_mature
is_mature-wraps current e small lt near = ground arith

-- The loop of ValidateTransaction gives the value of the inputs.
sum_inputs_sound :
    (current : ℕ) (is : List TxIn) (acc total : ℕ) (u : UtxoSet)
    → sum_inputs current is acc u ≡ some total
    → acc + input_value u.utxos is < amount_mod
    → AllPresent u.utxos is × (total ≡ acc + input_value u.utxos is)
unfolding sum_inputs input_value entry_value
sum_inputs_sound current [] acc total u e small = ground arith
sum_inputs_sound current (i ∷ is) acc total u e small =
    elim (Option-cases (lookup i.prev_out u.utxos)) [
      | inl missing ↦ absurd (ground (arith, missing, e))
      | inr (v, found) ↦ ground (
        arith,
        found,
        mod-eq_of_lt {n = acc + v.output.value} {m = amount_mod},
        sum_inputs_sound current is (add_amount acc v.output.value) total u,
      )
    ]

-- A transaction, no coinbase, that UTXOSet::ValidateTransaction lets through and that spends no
-- output twice can be applied, and the outputs that it creates are worth no more than those it
-- spends, where the set has one entry for each outpoint and the inputs are worth less than 2^64.
pub validate_transaction_sound :
    (p : Primitives) (tx : Transaction) (current height : ℕ) (u : UtxoSet)
    → HasUniqueKeys u.utxos
    → input_value u.utxos tx.inputs < amount_mod
    → Distinct tx.inputs
    → is_coinbase tx ≡ false
    → validate_transaction tx current u ≡ true
    → ((apply_transaction p tx height u).0 ≡ true)
      × (total_value tx.outputs ≤ input_value u.utxos tx.inputs)
unfolding validate_transaction
validate_transaction_sound p tx current height u k small d nc e =
    elim (Option-cases (sum_inputs current tx.inputs 0 u)) [
      | inl fails ↦ absurd (ground (arith, fails, e))
      | inr (total, sums) ↦
          let s = sum_inputs_sound current tx.inputs 0 total u sums (omega arith) in
          ground (
            arith,
            nc,
            sums,
            s,
            apply_transaction_iff p tx height u k,
            get_output_value-ValidTransaction tx,
          )
    ]

-- UTXOSet::ValidateTransaction does not look for repeated inputs: a valid transaction with two
-- inputs that refer to one spendable output worth no more than all the money, and whose outputs
-- are worth at most twice that output, passes, though it cannot be applied to the set, where that
-- has one entry for each outpoint.
pub validate_transaction-repeated_input :
    (p : Primitives) (tx : Transaction) (current height : ℕ) (u : UtxoSet) (i j : TxIn)
    (e : UtxoEntry)
    → HasUniqueKeys u.utxos
    → is_valid tx ≡ true
    → tx.inputs ≡ i ∷ j ∷ []
    → j.prev_out ≡ i.prev_out
    → lookup i.prev_out u.utxos ≡ some e
    → is_spendable current e ≡ true
    → e.output.value ≤ max_money
    → get_output_value tx ≤ 2 * e.output.value
    → (validate_transaction tx current u ≡ true) × ((apply_transaction p tx height u).0 ≡ false)
unfolding validate_transaction sum_inputs is_coinbase spends
validate_transaction-repeated_input p tx current height u i j e k valid two same found ripe small
      pays =
    (
      ground (arith, two, same, found, ripe),
      elim (Bool-cases (apply_transaction p tx height u).0) [
        | inl applies ↦
            let d = ((apply_transaction_iff p tx height u k).0 applies).1 in
            ground (arith, two, same, beq_iff j.prev_out i.prev_out, d)
        | inr fails ↦ fails
      ],
    )
