-- ===== src/Blockchain/Chain/Reverting.antt =====
-- RevertUTXOs of src/blockchain/blockchain.cpp, and what it leaves of a block's effect.
use dinari_blockchain_hub.Base.{
  ℕ, ◌+◌, ◌^◌, ◌%◌, ◌≤◌, ◌≡◌, refl, Bool, true, false, none, List, [], ◌∷◌, arith, length,
  if◌then◌else◌, ◌||◌, Option-cases, Bool-cases, inl, inr, All,
}
use dinari_blockchain_hub.Base.{◌⊎◌}
use mathlib.Core.Path.{subst}
use dinari_blockchain_hub.Base.Eq.{◌=?◌, nat_eq}
use dinari_blockchain_hub.Base.Map.{lookup, HasUniqueKeys, lookup-erase, erase-HasUniqueKeys}
use dinari_blockchain_hub.Util.Serialize.{Bytes}
use dinari_blockchain_hub.Crypto.Hash.{Primitives}
use dinari_blockchain_hub.Core.OutPoint.{OutPoint, beq_iff, out_point_eq}
use dinari_blockchain_hub.Core.TxOut.{TxOut}
use dinari_blockchain_hub.Core.Transaction.{Transaction, is_coinbase, get_hash}
use dinari_blockchain_hub.Core.Utxo.{UtxoSet, apply_transaction, remove_utxo}
use dinari_blockchain_hub.Core.Utxo.Apply.{
  spends, spent, apply_transaction-HasUniqueKeys, apply_transaction-refines-after,
}
use dinari_blockchain_hub.Core.Utxo.Revert.{names_output, created-names_output}
use dinari_blockchain_hub.Blockchain.Block.{Block}
use dinari_blockchain_hub.Blockchain.Chain.{
  ended, apply_all, apply_some, update_utxos, remove_outputs, revert_utxos,
}

-- Whether a transaction creates an output at the outpoint.
unfoldable pub creates : Primitives → List Transaction → OutPoint → Bool
creates p [] o = false
creates p (tx ∷ txs) o = names_output (get_hash p tx) 0 tx.outputs o || creates p txs o

-- Whether one spends it.
unfoldable pub spends_any : List Transaction → OutPoint → Bool
spends_any [] o = false
spends_any (tx ∷ txs) o = spends o (spent tx) || spends_any txs o

-- No transaction has more than 2^32 outputs.
abbrev pub FitsIndex : List Transaction → Type 0
FitsIndex txs = All (λ (tx : Transaction). length tx.outputs ≤ 2 ^ 32) txs

lookup-remove_utxo :
    (q o : OutPoint) (u : UtxoSet)
    → HasUniqueKeys u.utxos
    → (lookup o (remove_utxo q u).1.utxos ≡ (if q =? o then none else lookup o u.utxos))
      × HasUniqueKeys (remove_utxo q u).1.utxos
unfolding remove_utxo lookup
lookup-remove_utxo q o u k = elim (Option-cases (lookup q u.utxos)) [
  | inl n ↦ (rw (n, remove_utxo) (ground (arith, n, beq_iff q o)), rw (n, remove_utxo) k)
  | inr (e, f) ↦ (
    rw (f, remove_utxo) (lookup-erase q o u.utxos k),
    rw (f, remove_utxo) (erase-HasUniqueKeys q u.utxos k),
  )
]

lookup-remove_outputs :
    (h : Bytes) (n : ℕ) (os : List TxOut) (u : UtxoSet) (o : OutPoint)
    → HasUniqueKeys u.utxos
    → n + length os ≤ 2 ^ 32
    → (lookup o (remove_outputs h n os u).utxos
        ≡ (if names_output h n os o then none else lookup o u.utxos))
      × HasUniqueKeys (remove_outputs h n os u).utxos
unfolding remove_outputs names_output
lookup-remove_outputs h n [] u o k le = (refl, k)
lookup-remove_outputs h n (x ∷ xs) u o k le =
    let q : OutPoint = record { tx_hash = h; index = n % 2 ^ 32 } in
    let here = lookup-remove_utxo q o u k in
    let rest =
      lookup-remove_outputs h (n + 1) xs (remove_utxo q u).1 o here.1 (omega (arith, le)) in
    let same : n % 2 ^ 32 ≡ n = omega (arith, le) in (ground (arith, rest.0, here.0, same), rest.1)

-- RevertUTXOs takes away the outputs that the transactions create, and does nothing else.
pub lookup-revert_utxos :
    (p : Primitives) (txs : List Transaction) (u : UtxoSet) (o : OutPoint)
    → HasUniqueKeys u.utxos
    → FitsIndex txs
    → lookup o (revert_utxos p txs u).utxos ≡ (if creates p txs o then none else lookup o u.utxos)
unfolding revert_utxos creates
lookup-revert_utxos p [] u o k fits = refl
lookup-revert_utxos p (tx ∷ txs) u o k fits =
    let here = lookup-remove_outputs (get_hash p tx) 0 tx.outputs u o k (omega (arith, fits.0)) in
    let rest =
      lookup-revert_utxos p txs (remove_outputs (get_hash p tx) 0 tx.outputs u) o here.1 fits.1 in
    ground (arith, here.0, rest)

apply_all-HasUniqueKeys :
    (p : Primitives) (height : ℕ) (txs : List Transaction) (u : UtxoSet)
    → HasUniqueKeys u.utxos
    → HasUniqueKeys (apply_all p height txs u).1.utxos
unfolding apply_all
apply_all-HasUniqueKeys p height [] u k = k
apply_all-HasUniqueKeys p height (tx ∷ txs) u k =
    let w = (apply_transaction p tx height u).1 in
    let keys = apply_transaction-HasUniqueKeys p tx height u k in
    elim (Bool-cases (apply_transaction p tx height u).0) [
      | inl t ↦ rw t (apply_all-HasUniqueKeys p height txs w keys)
      | inr t ↦ rw t keys
    ]

-- A coin that is not there, and that no transaction creates, is not there afterwards.
still_none :
    (p : Primitives) (height : ℕ) (txs : List Transaction) (u v : UtxoSet) (o : OutPoint)
    → HasUniqueKeys u.utxos
    → FitsIndex txs
    → apply_all p height txs u ≡ (true, v)
    → creates p txs o ≡ false
    → (lookup o u.utxos ≡ none) ⊎ (spends_any txs o ≡ true)
    → lookup o v.utxos ≡ none
unfolding apply_all creates spends_any
still_none p height [] u v o k fits run c n = ground (arith, run, n)
still_none p height (tx ∷ txs) u v o k fits run c n =
    let w = (apply_transaction p tx height u).1 in
    let applied : (apply_transaction p tx height u).0 ≡ true = ground (arith, run) in
    let at = apply_transaction-refines-after p tx height u o k fits.0 applied in
    let unnamed =
      created-names_output (get_hash p tx) height (is_coinbase tx) 0 tx.outputs o
        (ground (arith, c)) in
    still_none p height txs w v o (apply_transaction-HasUniqueKeys p tx height u k) fits.1
      (ground (arith, run, applied)) (ground (arith, c)) (ground (arith, at, unnamed, n))

all_applied :
    (p : Primitives) (height : ℕ) (txs : List Transaction) (u v : UtxoSet)
    → apply_some p height txs u ≡ ended (true, v)
    → apply_all p height txs u ≡ (true, v)
unfolding apply_some
all_applied p height [] u v run = absurd (cc run)
all_applied p height (tx ∷ txs) u v run = cc run

-- An outpoint that a block's transactions spend is not among the unspent outputs after the block
-- has been applied by UpdateUTXOs, with success, and reverted by RevertUTXOs, where there is one
-- entry for each outpoint and no transaction has more than 2^32 outputs.
pub spent_lost :
    (p : Primitives) (b : Block) (height : ℕ) (u v : UtxoSet) (o : OutPoint)
    → HasUniqueKeys u.utxos
    → FitsIndex b.transactions
    → update_utxos p b height u ≡ ended (true, v)
    → spends_any b.transactions o ≡ true
    → lookup o (revert_utxos p b.transactions v).utxos ≡ none
unfolding apply_some update_utxos
spent_lost p b height u v o k fits run s =
    let run_all = all_applied p height b.transactions u v run in
    let keys : HasUniqueKeys v.utxos =
      subst (λ (r : Bool × UtxoSet). HasUniqueKeys r.1.utxos) run_all
        (apply_all-HasUniqueKeys p height b.transactions u k) in
    let at = lookup-revert_utxos p b.transactions v o keys fits in
    elim (Bool-cases (creates p b.transactions o)) [
      | inl t ↦ ground (arith, at, t)
      | inr t ↦
          ground (arith, at, t, still_none p height b.transactions u v o k fits run_all t (inr s))
    ]
