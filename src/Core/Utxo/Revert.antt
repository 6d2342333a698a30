-- ===== src/Core/Utxo/Revert.antt =====
-- UTXOSet::RevertTransaction (src/core/utxo.cpp) as the inverse of ApplyTransaction.
use native.Mathlib.Nat.{mod-eq_of_lt}
use dinari_blockchain_hub.Base.{
  ℕ, suc, ◌+◌, ◌^◌, ◌≤◌, ◌<◌, ◌≡◌, refl, Bool, true, false, ◌&&◌, none, List, [], ◌∷◌, arith,
  length, ◌==◌, if◌then◌else◌, ◌||◌, Option-cases, inl, inr,
}
use dinari_blockchain_hub.Base.Eq.{nat_eq, list_beq}
use dinari_blockchain_hub.Base.Map.{
  Map, lookup, insert, erase, HasUniqueKeys, lookup-insert, lookup-erase, erase-HasUniqueKeys,
}
use dinari_blockchain_hub.Util.Serialize.{Bytes}
use dinari_blockchain_hub.Crypto.Hash.{Primitives}
use dinari_blockchain_hub.Core.OutPoint.{OutPoint, beq_iff, out_point_eq}
use dinari_blockchain_hub.Core.TxOut.{TxOut}
use dinari_blockchain_hub.Core.TxIn.{TxIn}
use dinari_blockchain_hub.Core.Transaction.{Transaction, is_coinbase, get_hash}
use dinari_blockchain_hub.Core.Utxo.{
  UtxoEntry, UtxoSet, apply_transaction, erase_outputs, restore_inputs, revert_transaction,
}
use dinari_blockchain_hub.Core.Utxo.Apply.{
  spends, created, or_else, spent, apply_transaction-HasUniqueKeys, apply_transaction-refines-after,
}

-- Whether the outpoint is one of `len` outputs of the transaction with hash `h`, from `n` on.
unfoldable pub names_output : Bytes → ℕ → List TxOut → OutPoint → Bool
names_output h n [] o = false
names_output h n (x ∷ xs) o = (list_beq h o.tx_hash && n == o.index) || names_output h (n + 1) xs o

erase_outputs-lookup :
    (h : Bytes) (n : ℕ) (os : List TxOut) (m : Map OutPoint UtxoEntry) (o : OutPoint)
    → HasUniqueKeys m
    → n + length os ≤ 2 ^ 32
    → lookup o (erase_outputs h n os m) ≡ (if names_output h n os o then none else lookup o m)
unfolding erase_outputs names_output
erase_outputs-lookup h n [] m o k le = refl
erase_outputs-lookup h n (x ∷ xs) m o k le =
    let q : OutPoint = record { tx_hash = h; index = n } in
    rw (mod-eq_of_lt (below n xs le)) (
      ground (
        arith,
        erase_outputs-lookup h (n + 1) xs (erase q m) o,
        lookup-erase q o m k,
        erase-HasUniqueKeys q m k,
      ))
  where
    below : (n : ℕ) (xs : List TxOut) → n + suc (length xs) ≤ 2 ^ 32 → n < 2 ^ 32
    below n xs le = omega arith

restore_inputs-lookup :
    (previous : Map OutPoint UtxoEntry) (is : List TxIn) (m : Map OutPoint UtxoEntry) (o : OutPoint)
    → lookup o (restore_inputs previous is m)
      ≡ (if spends o is then or_else (lookup o previous) (lookup o m) else lookup o m)
unfolding restore_inputs spends
restore_inputs-lookup previous [] m o = refl
restore_inputs-lookup previous (i ∷ is) m o = elim (Option-cases (lookup i.prev_out previous)) [
  | inl e ↦ rw (e, restore_inputs-lookup previous is m o) (ground (arith, e, beq_iff i.prev_out o))
  | inr (v, e) ↦
      rw
        (
          e,
          restore_inputs-lookup previous is (insert i.prev_out v m) o,
          lookup-insert i.prev_out o v m,
        )
        (ground (arith, e, beq_iff i.prev_out o))
]

pub created-names_output :
    (h : Bytes) (height : ℕ) (c : Bool) (n : ℕ) (os : List TxOut) (o : OutPoint)
    → names_output h n os o ≡ false
    → created h height c n os o ≡ none
unfolding created names_output
created-names_output h height c n [] o e = refl
created-names_output h height c n (x ∷ xs) o e =
    ground (arith, created-names_output h height c (n + 1) xs o)

-- Reverting a transaction of at most 2^32 outputs that has just been applied with success to a set
-- with one entry for each outpoint gives back the set as it was, at every outpoint, where the
-- saved entries are those of the outputs that it spent and none of its own outputs was there
-- before.
pub revert_transaction-apply_transaction :
    (p : Primitives) (tx : Transaction) (height : ℕ) (u : UtxoSet)
    (previous : Map OutPoint UtxoEntry)
    → HasUniqueKeys u.utxos
    → length tx.outputs ≤ 2 ^ 32
    → (apply_transaction p tx height u).0 ≡ true
    → ((o : OutPoint) → spends o (spent tx) ≡ true → lookup o previous ≡ lookup o u.utxos)
    → ((o : OutPoint)
        → names_output (get_hash p tx) 0 tx.outputs o ≡ true
        → lookup o u.utxos ≡ none)
    → (o : OutPoint)
    → lookup o (revert_transaction p tx previous (apply_transaction p tx height u).1).1.utxos
      ≡ lookup o u.utxos
unfolding revert_transaction spends
revert_transaction-apply_transaction p tx height u previous k le e saved fresh o =
    let h = get_hash p tx in
    let v = (apply_transaction p tx height u).1 in
    ground (
      arith,
      saved o,
      fresh o,
      apply_transaction-refines-after p tx height u o k le e,
      created-names_output h height (is_coinbase tx) 0 tx.outputs o,
      erase_outputs-lookup h 0 tx.outputs v.utxos o
          (apply_transaction-HasUniqueKeys p tx height u k),
      restore_inputs-lookup previous tx.inputs (erase_outputs h 0 tx.outputs v.utxos) o,
    )
