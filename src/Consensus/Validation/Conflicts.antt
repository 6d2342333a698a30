-- ===== src/Consensus/Validation/Conflicts.antt =====
-- Two transactions of one block that spend the same output (src/consensus/validation.cpp).
use dinari_blockchain_hub.Base.{
  ℕ, ◌≤◌, ◌^◌, ◌≡◌, ◌≢◌, inl, inr, true, false, none, List, [], ◌∷◌, arith, length, Bool-cases,
}
use dinari_blockchain_hub.Base.Map.{lookup, HasUniqueKeys}
use dinari_blockchain_hub.Crypto.Hash.{Primitives}
use dinari_blockchain_hub.Core.OutPoint.{OutPoint, out_point_eq, beq_iff}
use dinari_blockchain_hub.Core.TxIn.{TxIn}
use dinari_blockchain_hub.Core.Transaction.{Transaction, is_coinbase, get_hash}
use dinari_blockchain_hub.Core.Utxo.{UtxoSet, apply_transaction}
use dinari_blockchain_hub.Core.Utxo.Apply.{
  spends, AllPresent, apply_transaction_iff, apply_transaction-refines-after,
  apply_transaction-HasUniqueKeys,
}
use dinari_blockchain_hub.Core.Utxo.Revert.{names_output, created-names_output}
use dinari_blockchain_hub.Consensus.Validation.{validate_transactions}
use dinari_blockchain_hub.Consensus.Validation.Issuance.{Admitted, validate_transactions_iff}

-- An outpoint that a list of inputs spends is there where all of them are.
spends-AllPresent :
    (o : OutPoint) (is : List TxIn) (u : UtxoSet)
    → AllPresent u.utxos is
    → spends o is ≡ true
    → lookup o u.utxos ≢ none
unfolding spends
spends-AllPresent o [] u a e = absurd (cc e)
spends-AllPresent o (i ∷ is) u a e =
    ground (arith, a, beq_iff i.prev_out o, spends-AllPresent o is u)

-- Two transactions that the loop of ValidateBlock admits on the same set of unspent outputs (one
-- entry for each outpoint) and that both spend one outpoint pass it together, and once the first
-- has been applied the second cannot be, where the first has at most 2^32 outputs, none of them at
-- that outpoint.
pub validate_transactions_conflict :
    (p : Primitives) (height time : ℕ) (u : UtxoSet) (first second : Transaction) (o : OutPoint)
    → HasUniqueKeys u.utxos
    → length first.outputs ≤ 2 ^ 32
    → Admitted p height time u first
    → Admitted p height time u second
    → spends o first.inputs ≡ true
    → spends o second.inputs ≡ true
    → names_output (get_hash p first) 0 first.outputs o ≡ false
    → (apply_transaction p first height u).0 ≡ true
    → (validate_transactions p height time u (first ∷ second ∷ []) ≡ none)
      × ((apply_transaction p second height (apply_transaction p first height u).1).0 ≡ false)
validate_transactions_conflict p height time u first second o k le a b sa sb new applies = (
  (validate_transactions_iff p height time u (first ∷ second ∷ [])).1 (a, (b, tt)),
  elim (Bool-cases (apply_transaction p second height (apply_transaction p first height u).1).0) [
    | inl again ↦
        let v = (apply_transaction p first height u).1 in
        let there =
          (apply_transaction_iff p second height v
              (apply_transaction-HasUniqueKeys p first height u k)).0
            again in
        let missing : lookup o v.utxos ≡ none = ground (
          arith,
          a,
          created-names_output (get_hash p first) height (is_coinbase first) 0 first.outputs o new,
          apply_transaction-refines-after p first height u o k le applies,
        ) in
        absurd (ground (arith, b, there, missing, spends-AllPresent o second.inputs v))
    | inr fails ↦ fails
  ],
)
