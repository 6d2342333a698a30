-- ===== src/Consensus/Validation/Inputs.antt =====
-- What the validator promises to UTXOSet::ApplyTransaction (src/consensus/validation.cpp).
use native.Mathlib.Nat.{mod-eq_of_lt}
use dinari_blockchain_hub.Base.{
  ℕ, ◌+◌, ◌^◌, ◌≤◌, ◌<◌, ◌≡◌, ◌↔◌, inl, inr, refl, Bool, true, false, none, some, List, [], ◌∷◌,
  arith, All, length, Option-cases,
}
use dinari_blockchain_hub.Base.Map.{lookup, HasUniqueKeys}
use dinari_blockchain_hub.Crypto.Hash.{Primitives}
use dinari_blockchain_hub.Core.Amount.{add_amount, amount_mod, max_money, money_range}
use dinari_blockchain_hub.Core.OutPoint.{OutPoint, out_point_eq}
use dinari_blockchain_hub.Core.TxIn.{TxIn}
use dinari_blockchain_hub.Core.Transaction
use dinari_blockchain_hub.Core.Transaction.{Transaction, is_coinbase, get_hash, get_output_value}
use dinari_blockchain_hub.Core.Transaction.Validity.{get_output_value-ValidTransaction}
use dinari_blockchain_hub.Core.Utxo.{
  UtxoEntry, UtxoSet, is_spendable, get_utxo, get_utxo_entry, apply_transaction,
}
use dinari_blockchain_hub.Core.Utxo.Apply.{spends, Distinct, AllPresent, apply_transaction_iff}
use dinari_blockchain_hub.Core.Utxo.Value.{
  value_of, input_value, entry_value, Fresh, apply_transaction-value,
}
use dinari_blockchain_hub.Core.Fees.{add_inputs, get_input_value, get_fee}
use dinari_blockchain_hub.Core.Script.{verify}
use dinari_blockchain_hub.Core.Script.Steps.{Run-cases}
use dinari_blockchain_hub.Core.Script.Templates.{accepted}
use dinari_blockchain_hub.Consensus.Validation.{
  seen_before, inputs_distinct, quick_transaction_check, check_inputs, check_transaction_inputs,
  validate_transaction,
}

-- Every input refers to an unspent output that may be spent at the height, and its script
-- satisfies that output's, the inputs counted from `index`.
abbrev pub Authorised : Primitives → Transaction → ℕ → UtxoSet → ℕ → List TxIn → Type 0
Authorised p tx height u index [] = Unit
Authorised p tx height u index (i ∷ is) =
    ((e : UtxoEntry) × (lookup i.prev_out u.utxos ≡ some e)
      × (is_spendable height e ≡ true)
      × (accepted (verify p i.script_sig e.output.script_pub_key tx index) ≡ true))
    × Authorised p tx height u (index + 1) is

-- No unspent output is worth more than all the money.
abbrev pub ValuesInRange : UtxoSet → Type 0
ValuesInRange u =
    (o : OutPoint) (e : UtxoEntry) → lookup o u.utxos ≡ some e → e.output.value ≤ max_money

-- None of the inputs has been seen.
abbrev Unseen : List OutPoint → List TxIn → Type 0
Unseen seen = All (λ i. seen_before i.prev_out seen ≡ false)

Unseen-∷ :
    (o : OutPoint) (seen : List OutPoint) (is : List TxIn)
    → Unseen (o ∷ seen) is ↔ ((spends o is ≡ false) × Unseen seen is)
unfolding seen_before spends
Unseen-∷ o seen [] = ground arith
Unseen-∷ o seen (i ∷ is) = ground (arith, Unseen-∷ o seen is)

inputs_distinct_iff :
    (seen : List OutPoint) (is : List TxIn)
    → (inputs_distinct seen is ≡ true) ↔ (Distinct is × Unseen seen is)
unfolding inputs_distinct
inputs_distinct_iff seen [] = ground arith
inputs_distinct_iff seen (i ∷ is) =
    ground (arith, inputs_distinct_iff (i.prev_out ∷ seen) is, Unseen-∷ i.prev_out seen is)

Unseen-[] : (is : List TxIn) → Unseen [] is
unfolding seen_before
Unseen-[] [] = tt
Unseen-[] (i ∷ is) = (refl, Unseen-[] is)

module _ (p : Primitives) (tx : Transaction) (height : ℕ) (u : UtxoSet)
    (small : ValuesInRange u) where
  check_inputs_sound :
      (index total : ℕ) (is : List TxIn)
      → total ≤ max_money
      → check_inputs p tx height u index total is ≡ none
      → Authorised p tx height u index is
        × (total + input_value u.utxos is ≤ max_money)
        × (get_output_value tx ≤ total + input_value u.utxos is)
  unfolding check_inputs get_utxo_entry input_value entry_value money_range
  check_inputs_sound index total [] h e = ground arith
  check_inputs_sound index total (i ∷ is) h e = elim (Option-cases (lookup i.prev_out u.utxos)) [
    | inl missing ↦ absurd (ground (arith, missing, e))
    | inr (v, found) ↦ elim (Run-cases (verify p i.script_sig v.output.script_pub_key tx index)) [
      | inl (a, runs) ↦ ground (
        arith,
        found,
        runs,
        small i.prev_out v found,
        mod-eq_of_lt {n = total + v.output.value} {m = amount_mod},
        check_inputs_sound (index + 1) (add_amount total v.output.value) is,
      )
      | inr (err, fails) ↦ absurd (ground (arith, found, fails, e))
    ]
  ]

  check_inputs_complete :
      (index total : ℕ) (is : List TxIn)
      → Authorised p tx height u index is
      → total + input_value u.utxos is ≤ max_money
      → get_output_value tx ≤ total + input_value u.utxos is
      → check_inputs p tx height u index total is ≡ none
  unfolding check_inputs get_utxo_entry input_value entry_value money_range
  check_inputs_complete index total [] a h pays = ground arith
  check_inputs_complete index total (i ∷ is) a h pays =
      let v = a.0.0 in
      elim (Run-cases (verify p i.script_sig v.output.script_pub_key tx index)) [
        | inl (done, runs) ↦ ground (
          arith,
          a.0.1,
          runs,
          mod-eq_of_lt {n = total + v.output.value} {m = amount_mod},
          check_inputs_complete (index + 1) (add_amount total v.output.value) is,
        )
        | inr (err, fails) ↦ absurd (ground (arith, fails, a.0.3))
      ]

  -- Where no unspent output is worth more than all the money: ValidateTransaction lets a
  -- transaction that is no coinbase through exactly if it is valid by itself, spends nothing twice,
  -- spends only unspent outputs that are mature and whose scripts it satisfies, and its inputs are
  -- worth no more than all the money and no less than its outputs.
  pub validate_transaction_iff :
      (in_block : Bool)
      → is_coinbase tx ≡ false
      → (validate_transaction p tx height u in_block ≡ none) ↔ (
          (Transaction.is_valid tx ≡ true)
          × Distinct tx.inputs
          × Authorised p tx height u 0 tx.inputs
          × (input_value u.utxos tx.inputs ≤ max_money)
          × (get_output_value tx ≤ input_value u.utxos tx.inputs))
  unfolding validate_transaction quick_transaction_check check_transaction_inputs
  validate_transaction_iff in_block nc = ground (
    arith,
    nc,
    inputs_distinct_iff [] tx.inputs,
    Unseen-[] tx.inputs,
    check_inputs_sound 0 0 tx.inputs,
    check_inputs_complete 0 0 tx.inputs,
  )

AllPresent-Authorised :
    (p : Primitives) (tx : Transaction) (height : ℕ) (u : UtxoSet) (index : ℕ) (is : List TxIn)
    → Authorised p tx height u index is
    → AllPresent u.utxos is
AllPresent-Authorised p tx height u index [] a = tt
AllPresent-Authorised p tx height u index (i ∷ is) a =
    (λ missing. cc, AllPresent-Authorised p tx height u (index + 1) is a.1)

add_inputs-eq :
    (total : ℕ) (is : List TxIn) (u : UtxoSet)
    → total + input_value u.utxos is < amount_mod
    → add_inputs total is u ≡ total + input_value u.utxos is
unfolding add_inputs input_value get_utxo entry_value
add_inputs-eq total [] u h = omega arith
add_inputs-eq total (i ∷ is) u h = elim (Option-cases (lookup i.prev_out u.utxos)) [
  | inl missing ↦ ground (arith, missing, add_inputs-eq total is u)
  | inr (e, found) ↦ ground (
    arith,
    found,
    mod-eq_of_lt {n = total + e.output.value} {m = amount_mod},
    add_inputs-eq (add_amount total e.output.value) is u,
  )
]

-- A transaction, no coinbase and with at most 2^32 outputs, that ValidateTransaction lets through
-- can be applied to the same set of unspent outputs, and the set is then worth less than before by
-- exactly the fee that GetFee computes, where the set has one entry for each outpoint, no entry is
-- worth more than all the money, and the transaction's own outputs are new to the set.
pub validate_transaction-value :
    (p : Primitives) (tx : Transaction) (height : ℕ) (u : UtxoSet) (in_block : Bool)
    → ValuesInRange u
    → HasUniqueKeys u.utxos
    → length tx.outputs ≤ 2 ^ 32
    → Fresh (get_hash p tx) 0 tx.outputs u.utxos
    → is_coinbase tx ≡ false
    → validate_transaction p tx height u in_block ≡ none
    → ((apply_transaction p tx height u).0 ≡ true)
      × (value_of (apply_transaction p tx height u).1.utxos + get_fee tx u ≡ value_of u.utxos)
unfolding get_fee get_input_value
validate_transaction-value p tx height u in_block small k outs fresh nc e =
    let v = (validate_transaction_iff p tx height u small in_block nc).0 e in
    let applies : (apply_transaction p tx height u).0 ≡ true = ground (
      arith,
      nc,
      v,
      AllPresent-Authorised p tx height u 0 tx.inputs,
      apply_transaction_iff p tx height u k,
    ) in
    (
      applies,
      ground (
        arith,
        nc,
        v,
        get_output_value-ValidTransaction tx,
        add_inputs-eq 0 tx.inputs u,
        apply_transaction-value p tx height u k outs fresh applies,
      ),
    )
