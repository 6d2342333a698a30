-- ===== src/Core/Mempool/Conflicts.antt =====
-- Double spending in the memory pool: CheckForConflicts and RemoveConflicts of src/core/mempool.cpp.
use dinari_blockchain_hub.Base.{
  Bool, ℕ, ◌≡◌, ◌≢◌, refl, true, false, none, some, List, [], ◌∷◌, if◌then◌else◌, arith,
  Option-cases, Bool-cases, inl, inr,
}
use dinari_blockchain_hub.Base.Eq.{nat_eq, list_eq, list_beq_iff}
use dinari_blockchain_hub.Base.Map.{Map, lookup, HasUniqueKeys, lookup-insert}
use dinari_blockchain_hub.Util.Serialize.{Bytes}
use dinari_blockchain_hub.Crypto.Hash.{Primitives}
use dinari_blockchain_hub.Core.OutPoint.{OutPoint, out_point_eq, beq_iff}
use dinari_blockchain_hub.Core.TxIn
use dinari_blockchain_hub.Core.TxIn.{TxIn}
use dinari_blockchain_hub.Core.Transaction.{Transaction, get_hash}
use dinari_blockchain_hub.Core.Utxo.{UtxoSet}
use dinari_blockchain_hub.Core.Mempool.{
  MemPoolEntry, MemPool, done, locked_again, inputs_conflict, store_entry, drop_entry,
  remove_from_indices, check_for_conflicts, remove_transaction, remove_transactions,
  remove_conflicts, conflicting, add_transaction,
}
use dinari_blockchain_hub.Core.Mempool.Consistency.{
  claims, IsConsistent, lookup-unindex_inputs, inputs_conflict-false,
}
use dinari_blockchain_hub.Core.Mempool.History.{
  Reach, Reach-IsConsistent, remove_transaction-IsConsistent, add_transaction_outcome,
}
use dinari_blockchain_hub.Base.{◌↔◌}
use dinari_blockchain_hub.Base.{◌⊎◌}
use dinari_blockchain_hub.Core.Mempool.{new_entry, remove_from_indices}
use dinari_blockchain_hub.Core.Fees.{get_fee}

-- In a memory pool that has come from the empty one, two entries that spend one outpoint are the
-- same.
pub pooled_once :
    (p : Primitives) (m : MemPool) (o : OutPoint) (g h : Bytes) (d e : MemPoolEntry)
    → Reach p m
    → lookup g m.transactions ≡ some d
    → lookup h m.transactions ≡ some e
    → claims o d.tx.inputs ≡ true
    → claims o e.tx.inputs ≡ true
    → g ≡ h
pooled_once p m o g h d e r f t s u =
    let c = Reach-IsConsistent p m r in ground (arith, c.indexed g d o f s, c.indexed h e o t u)

-- A conflict is that of some input.
inputs_conflict-true :
    (index : Map OutPoint Bytes) (is : List TxIn)
    → inputs_conflict index is ≡ true
    → (o : OutPoint) × (h : Bytes) × (claims o is ≡ true) × (lookup o index ≡ some h)
unfolding inputs_conflict claims
inputs_conflict-true index [] f = absurd (cc f)
inputs_conflict-true index (i ∷ is) f = elim (Bool-cases (TxIn.is_coinbase i)) [
  | inl t ↦
      let (o, h, s, at) = inputs_conflict-true index is (ground (arith, f, t)) in
      (o, h, ground (arith, s, t), at)
  | inr t ↦ elim (Option-cases (lookup i.prev_out index)) [
    | inl n ↦
        let (o, h, s, at) = inputs_conflict-true index is (ground (arith, f, t, n)) in
        (o, h, ground (arith, s, t), at)
    | inr (h, at) ↦ (i.prev_out, h, ground (arith, t, beq_iff i.prev_out i.prev_out), at)
  ]
]

-- In a consistent memory pool, CheckForConflicts says true exactly where an entry of the pool and
-- the transaction spend one outpoint.
pub check_for_conflicts_iff :
    (p : Primitives) (m : MemPool) (tx : Transaction)
    → IsConsistent p m
    → (check_for_conflicts tx m ≡ true)
      ↔ (o : OutPoint) × (h : Bytes) × (e : MemPoolEntry) × (lookup h m.transactions ≡ some e)
        × (claims o e.tx.inputs ≡ true)
        × (claims o tx.inputs ≡ true)
unfolding check_for_conflicts
check_for_conflicts_iff p m tx c = (
  (λ f.
      let (o, h, s, at) = inputs_conflict-true m.input_index tx.inputs f in
      let (e, found, t) = c.owned o h at in (o, h, e, found, t, s)),
  (λ (o, h, e, found, t, s).
      ground (arith, c.indexed h e o found t, inputs_conflict-false o m.input_index tx.inputs, s)),
)

lookup-drop_entry :
    (o : OutPoint) (h : Bytes) (e : MemPoolEntry) (m : MemPool)
    → HasUniqueKeys m.input_index
    → lookup o (drop_entry h e m).input_index
      ≡ (if claims o e.tx.inputs then none else lookup o m.input_index)
unfolding drop_entry remove_from_indices
lookup-drop_entry o h e m k = lookup-unindex_inputs o e.tx.inputs m.input_index k

-- What a removal leaves of an outpoint in the index.
lookup-remove_transaction :
    (p : Primitives) (o : OutPoint) (h : Bytes) (m : MemPool)
    → IsConsistent p m
    → (lookup o (remove_transaction h m).1.input_index ≡ none)
      ⊎ ((lookup o (remove_transaction h m).1.input_index ≡ lookup o m.input_index)
          × (lookup o m.input_index ≢ some h))
unfolding remove_transaction
lookup-remove_transaction p o h m c = elim (Option-cases (lookup h m.transactions)) [
  | inl n ↦
      rw (n, remove_transaction)
        (inr (refl, (λ f. let (d, found, s) = c.owned o h f in absurd (cc (n, found)))))
  | inr (e, f) ↦ elim (Bool-cases (claims o e.tx.inputs)) [
    | inl t ↦ inl (ground (arith, f, t, lookup-drop_entry o h e m c.index_keys))
    | inr t ↦ inr (
      (ground (arith, f, t, lookup-drop_entry o h e m c.index_keys)),
      (λ g. let (d, found, s) = c.owned o h g in ground (arith, f, found, s, t)),
    )
  ]
]

remove_conflicting_lem :
    (p : Primitives) (o : OutPoint) (index : Map OutPoint Bytes) (is : List TxIn) (m : MemPool)
    → IsConsistent p m
    → (lookup o m.input_index ≡ none)
      ⊎ ((lookup o m.input_index ≡ lookup o index) × (claims o is ≡ true))
    → lookup o (remove_transactions (conflicting index is) m).input_index ≡ none
unfolding remove_transactions conflicting claims
remove_conflicting_lem p o index [] m c f = ground (arith, f)
remove_conflicting_lem p o index (i ∷ is) m c f = elim (Bool-cases (TxIn.is_coinbase i)) [
  | inl t ↦ rw t (remove_conflicting_lem p o index is m c (ground (arith, f, t)))
  | inr t ↦ elim (Option-cases (lookup i.prev_out index)) [
    | inl n ↦
        rw (t, n)
          (remove_conflicting_lem p o index is m c (ground (arith, f, t, n, beq_iff i.prev_out o)))
    | inr (h, at) ↦
        rw (t, at)
          (remove_conflicting_lem p o index is (remove_transaction h m).1
            (remove_transaction-IsConsistent p h m c)
            (ground (arith, f, t, at, beq_iff i.prev_out o, lookup-remove_transaction p o h m c)))
  ]
]

-- An input that has a conflict refers to an outpoint in the index; without one there is none.
inputs_conflict-none :
    (index : Map OutPoint Bytes) (is : List TxIn)
    → ((o : OutPoint) → claims o is ≡ true → lookup o index ≡ none)
    → inputs_conflict index is ≡ false
inputs_conflict-none index is f = elim (Bool-cases (inputs_conflict index is)) [
  | inl t ↦ let (o, h, s, at) = inputs_conflict-true index is t in absurd (cc (f o s, at))
  | inr n ↦ n
]

-- In a memory pool that has come from the empty one, RemoveConflicts for a transaction leaves
-- nothing that CheckForConflicts finds for it.
pub check_for_conflicts-remove_conflicts :
    (p : Primitives) (m : MemPool) (tx : Transaction)
    → Reach p m
    → check_for_conflicts tx (remove_conflicts tx m) ≡ false
unfolding check_for_conflicts remove_conflicts
check_for_conflicts-remove_conflicts p m tx r =
    inputs_conflict-none (remove_conflicts tx m).input_index tx.inputs (λ o s.
      remove_conflicting_lem p o m.input_index tx.inputs m (Reach-IsConsistent p m r)
        (inr (refl, s)))

-- What AddTransaction has admitted is in the pool.
pub added_transaction :
    (reentrant : Bool) (p : Primitives) (m n : MemPool) (now : ℕ) (tx : Transaction) (u : UtxoSet)
    (ht : ℕ)
    → IsConsistent p m
    → add_transaction reentrant p now tx u ht m ≡ done (true, n)
    → lookup (get_hash p tx) n.transactions ≡ some (new_entry now tx (get_fee tx u))
unfolding store_entry
added_transaction reentrant p m n now tx u ht c run =
    elim (add_transaction_outcome reentrant p now tx u ht true m n c run) [
      | inl (t, same) ↦ absurd (cc t)
      | inr (t, new, free, result) ↦ rw result (
          ground (
            arith,
            lookup-insert (get_hash p tx) (get_hash p tx) (new_entry now tx (get_fee tx u))
                m.transactions,
            list_beq_iff (get_hash p tx) (get_hash p tx),
          ))
    ]

-- Take a consistent memory pool, an entry of it that spends an outpoint, and a transaction that
-- spends it too. AddTransaction of that transaction, at whatever time, height and unspent outputs,
-- never admits it: where the mutex may be locked again, it answers no and leaves the pool as it
-- was, and where it may not, as std::mutex, the run ends in the second lock.
pub second_spender_refused :
    (reentrant : Bool) (p : Primitives) (m : MemPool) (now : ℕ) (other : Transaction) (u : UtxoSet)
    (ht : ℕ) (o : OutPoint) (h : Bytes) (e : MemPoolEntry)
    → IsConsistent p m
    → lookup h m.transactions ≡ some e
    → claims o e.tx.inputs ≡ true
    → claims o other.inputs ≡ true
    → add_transaction reentrant p now other u ht m
      ≡ (if reentrant then done (false, m) else locked_again)
unfolding add_transaction
second_spender_refused reentrant p m now other u ht o h e c found s t =
    let conflict = (check_for_conflicts_iff p m other c).1 (o, h, e, found, s, t) in
    ground (arith, conflict)
