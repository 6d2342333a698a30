-- ===== src/Core/Utxo/Apply.antt =====
-- UTXOSet::ApplyTransaction (src/core/utxo.cpp) against an abstract set of unspent outputs: a
-- function from outpoints to entries.
use native.Mathlib.Nat.{mod-eq_of_lt}
use dinari_blockchain_hub.Base.{
  ℕ, ◌+◌, ◌^◌, ◌≤◌, ◌<◌, ◌≡◌, ◌≢◌, ◌↔◌, refl, Bool, true, false, ◌&&◌, ◌||◌, Option, none, some,
  List, [], ◌∷◌, arith, length, ◌==◌, if◌then◌else◌,
}
use dinari_blockchain_hub.Base.Eq.{◌=?◌, nat_eq, list_beq, list_eq}
use dinari_blockchain_hub.Base.Map.{
  Map, lookup, erase, HasUniqueKeys, lookup-insert, lookup-erase, insert-HasUniqueKeys,
  erase-HasUniqueKeys,
}
use dinari_blockchain_hub.Util.Serialize.{Bytes}
use dinari_blockchain_hub.Crypto.Hash.{Primitives}
use dinari_blockchain_hub.Core.OutPoint.{OutPoint, beq_iff, out_point_eq}
use dinari_blockchain_hub.Core.TxOut.{TxOut}
use dinari_blockchain_hub.Core.TxIn.{TxIn}
use dinari_blockchain_hub.Core.Transaction.{Transaction, is_coinbase, get_hash}
use dinari_blockchain_hub.Core.Utxo.{
  UtxoEntry, UtxoSet, spend_inputs, add_output, add_outputs, apply_transaction,
}

-- Whether an input refers to the outpoint.
unfoldable pub spends : OutPoint → List TxIn → Bool
spends o [] = false
spends o (i ∷ is) = (i.prev_out =? o) || spends o is

-- No outpoint is spent twice.
abbrev pub Distinct : List TxIn → Type 0
Distinct [] = Unit
Distinct (i ∷ is) = (spends i.prev_out is ≡ false) × Distinct is

-- Every input refers to an unspent output.
abbrev pub AllPresent : Map OutPoint UtxoEntry → List TxIn → Type 0
AllPresent m [] = Unit
AllPresent m (i ∷ is) = (lookup i.prev_out m ≢ none) × AllPresent m is

pub spend_inputs-HasUniqueKeys :
    (is : List TxIn) (u : UtxoSet)
    → HasUniqueKeys u.utxos
    → HasUniqueKeys (spend_inputs is u).1.utxos
unfolding spend_inputs
spend_inputs-HasUniqueKeys [] u k = k
spend_inputs-HasUniqueKeys (i ∷ is) u k = ground (
  arith,
  erase-HasUniqueKeys i.prev_out u.utxos k,
  spend_inputs-HasUniqueKeys is (record u { utxos = erase i.prev_out u.utxos }),
)

pub spend_inputs-lookup :
    (o : OutPoint) (is : List TxIn) (u : UtxoSet)
    → HasUniqueKeys u.utxos
    → (spend_inputs is u).0 ≡ true
    → lookup o (spend_inputs is u).1.utxos ≡ (if spends o is then none else lookup o u.utxos)
unfolding spend_inputs spends
spend_inputs-lookup o [] u k e = refl
spend_inputs-lookup o (i ∷ is) u k e = ground (
  arith,
  beq_iff i.prev_out o,
  lookup-erase i.prev_out o u.utxos k,
  erase-HasUniqueKeys i.prev_out u.utxos k,
  spend_inputs-lookup o is (record u { utxos = erase i.prev_out u.utxos }),
)

AllPresent-erase :
    (k : OutPoint) (is : List TxIn) (m : Map OutPoint UtxoEntry)
    → HasUniqueKeys m
    → AllPresent (erase k m) is ↔ (AllPresent m is × (spends k is ≡ false))
unfolding spends
AllPresent-erase k [] m u = ground arith
AllPresent-erase k (i ∷ is) m u = ground (
  arith,
  beq_iff i.prev_out k,
  beq_iff k i.prev_out,
  lookup-erase k i.prev_out m u,
  AllPresent-erase k is m u,
)

-- The loop over the inputs succeeds exactly where every input refers to an unspent output and
-- none does so twice.
pub spend_inputs_iff :
    (is : List TxIn) (u : UtxoSet)
    → HasUniqueKeys u.utxos
    → ((spend_inputs is u).0 ≡ true) ↔ (AllPresent u.utxos is × Distinct is)
unfolding spend_inputs
spend_inputs_iff [] u k = ground arith
spend_inputs_iff (i ∷ is) u k = ground (
  arith,
  AllPresent-erase i.prev_out is u.utxos k,
  erase-HasUniqueKeys i.prev_out u.utxos k,
  spend_inputs_iff is (record u { utxos = erase i.prev_out u.utxos }),
)

-- Where an input fails, those before it are spent all the same.
spend_inputs-gone :
    (o : OutPoint) (is : List TxIn) (u : UtxoSet)
    → HasUniqueKeys u.utxos
    → lookup o u.utxos ≡ none
    → lookup o (spend_inputs is u).1.utxos ≡ none
unfolding spend_inputs
spend_inputs-gone o [] u k e = e
spend_inputs-gone o (i ∷ is) u k e = ground (
  arith,
  lookup-erase i.prev_out o u.utxos k,
  erase-HasUniqueKeys i.prev_out u.utxos k,
  spend_inputs-gone o is (record u { utxos = erase i.prev_out u.utxos }),
)

-- The entry that a transaction with hash `h` creates at `o`, its outputs counted from `n`.
unfoldable pub created : Bytes → ℕ → Bool → ℕ → List TxOut → OutPoint → Option UtxoEntry
created h height coinbase n [] o = none
created h height coinbase n (x ∷ xs) o =
    if list_beq h o.tx_hash && n == o.index
    then some (record { output = x; height = height; from_coinbase = coinbase })
    else created h height coinbase (n + 1) xs o

abbrev pub or_else {ℓ} : {A : Type ℓ} → Option A → Option A → Option A
or_else none b = b
or_else (some a) b = some a

created-below :
    (h : Bytes) (height : ℕ) (c : Bool) (n : ℕ) (os : List TxOut) (o : OutPoint)
    → o.index < n
    → created h height c n os o ≡ none
unfolding created
created-below h height c n [] o lt = refl
created-below h height c n (x ∷ xs) o lt = ground (arith, created-below h height c (n + 1) xs o)

pub add_output-lookup :
    (h : Bytes) (height : ℕ) (c : Bool) (n : ℕ) (x : TxOut) (u : UtxoSet) (o : OutPoint)
    → n < 2 ^ 32
    → lookup o (add_output h height c n x u).utxos
      ≡ or_else (created h height c n (x ∷ []) o) (lookup o u.utxos)
unfolding add_output created
add_output-lookup h height c n x u o lt =
    rw (mod-eq_of_lt lt, lookup-insert (record { tx_hash = h; index = n }) o _ u.utxos)
      (ground arith)

add_outputs-lookup :
    (h : Bytes) (height : ℕ) (c : Bool) (n : ℕ) (os : List TxOut) (u : UtxoSet) (o : OutPoint)
    → n + length os ≤ 2 ^ 32
    → lookup o (add_outputs h height c n os u).utxos
      ≡ or_else (created h height c n os o) (lookup o u.utxos)
unfolding add_outputs created
add_outputs-lookup h height c n [] u o le = refl
add_outputs-lookup h height c n (x ∷ xs) u o le = ground (
  arith,
  add_outputs-lookup h height c (n + 1) xs (add_output h height c n x u) o,
  add_output-lookup h height c n x u o,
  created-below h height c (n + 1) xs o,
)

pub add_output-HasUniqueKeys :
    (h : Bytes) (height : ℕ) (c : Bool) (n : ℕ) (x : TxOut) (u : UtxoSet)
    → HasUniqueKeys u.utxos
    → HasUniqueKeys (add_output h height c n x u).utxos
unfolding add_output
add_output-HasUniqueKeys h height c n x u k = insert-HasUniqueKeys _ _ u.utxos k

add_outputs-HasUniqueKeys :
    (h : Bytes) (height : ℕ) (c : Bool) (n : ℕ) (os : List TxOut) (u : UtxoSet)
    → HasUniqueKeys u.utxos
    → HasUniqueKeys (add_outputs h height c n os u).utxos
unfolding add_outputs
add_outputs-HasUniqueKeys h height c n [] u k = k
add_outputs-HasUniqueKeys h height c n (x ∷ xs) u k =
    add_outputs-HasUniqueKeys h height c (n + 1) xs _ (add_output-HasUniqueKeys h height c n x u k)

-- What a transaction spends: nothing, if it is a coinbase.
abbrev pub spent : Transaction → List TxIn
spent tx = if is_coinbase tx then [] else tx.inputs

-- The step of the abstract set of unspent outputs.
abbrev pub after :
    Primitives → Transaction → ℕ → (OutPoint → Option UtxoEntry) → OutPoint → Option UtxoEntry
after p tx height f o =
    or_else (created (get_hash p tx) height (is_coinbase tx) 0 tx.outputs o)
      (if spends o (spent tx) then none else f o)

-- ApplyTransaction keeps one entry for each outpoint, whether it succeeds or fails on the way.
pub apply_transaction-HasUniqueKeys :
    (p : Primitives) (tx : Transaction) (height : ℕ) (u : UtxoSet)
    → HasUniqueKeys u.utxos
    → HasUniqueKeys (apply_transaction p tx height u).1.utxos
unfolding apply_transaction
apply_transaction-HasUniqueKeys p tx height u k = ground (
  arith,
  spend_inputs-HasUniqueKeys tx.inputs u k,
  add_outputs-HasUniqueKeys (get_hash p tx) height (is_coinbase tx) 0 tx.outputs
      (spend_inputs tx.inputs u).1,
  add_outputs-HasUniqueKeys (get_hash p tx) height (is_coinbase tx) 0 tx.outputs u k,
)

-- On a set with one entry for each outpoint, ApplyTransaction succeeds exactly where the outpoints
-- that the transaction spends (none for a coinbase) are all unspent and distinct.
pub apply_transaction_iff :
    (p : Primitives) (tx : Transaction) (height : ℕ) (u : UtxoSet)
    → HasUniqueKeys u.utxos
    → ((apply_transaction p tx height u).0 ≡ true)
      ↔ (AllPresent u.utxos (spent tx) × Distinct (spent tx))
unfolding apply_transaction
apply_transaction_iff p tx height u k = ground (arith, spend_inputs_iff tx.inputs u k)

-- For a set with one entry for each outpoint and a transaction of at most 2^32 outputs: where
-- ApplyTransaction succeeds it refines the abstract step, that is, at every outpoint the set then
-- has the output that the transaction creates there, or nothing if the transaction spends it, or
-- what was there before.
pub apply_transaction-refines-after :
    (p : Primitives) (tx : Transaction) (height : ℕ) (u : UtxoSet) (o : OutPoint)
    → HasUniqueKeys u.utxos
    → length tx.outputs ≤ 2 ^ 32
    → (apply_transaction p tx height u).0 ≡ true
    → lookup o (apply_transaction p tx height u).1.utxos
      ≡ after p tx height (λ q. lookup q u.utxos) o
unfolding apply_transaction spends
apply_transaction-refines-after p tx height u o k le e = ground (
  arith,
  spend_inputs-lookup o tx.inputs u k,
  add_outputs-lookup (get_hash p tx) height (is_coinbase tx) 0 tx.outputs
      (spend_inputs tx.inputs u).1 o,
  add_outputs-lookup (get_hash p tx) height (is_coinbase tx) 0 tx.outputs u o,
)

-- A transaction, no coinbase, that fails to apply to a set with one entry for each outpoint is not
-- undone: its first input, if it was unspent, is lost.
pub apply_transaction_not_atomic :
    (p : Primitives) (tx : Transaction) (height : ℕ) (u : UtxoSet) (i : TxIn) (is : List TxIn)
    → HasUniqueKeys u.utxos
    → is_coinbase tx ≡ false
    → tx.inputs ≡ i ∷ is
    → lookup i.prev_out u.utxos ≢ none
    → (apply_transaction p tx height u).0 ≡ false
    → lookup i.prev_out (apply_transaction p tx height u).1.utxos ≡ none
unfolding apply_transaction spend_inputs
apply_transaction_not_atomic p tx height u i is k nc e present fails =
    let left : UtxoSet = record u { utxos = erase i.prev_out u.utxos } in
    rw (nc, e, spend_inputs)
      (ground (
        arith,
        nc,
        e,
        beq_iff i.prev_out i.prev_out,
        lookup-erase i.prev_out i.prev_out u.utxos k,
        spend_inputs-gone i.prev_out is left (erase-HasUniqueKeys i.prev_out u.utxos k),
      ))
