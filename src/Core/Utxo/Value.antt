-- ===== src/Core/Utxo/Value.antt =====
-- The value of the set of unspent outputs under ApplyTransaction (src/core/utxo.cpp): what is
-- spent leaves it, what is created enters it, and nothing else changes.
use native.Mathlib.Nat.{mod-eq_of_lt}
use dinari_blockchain_hub.Base.{
  ℕ, ◌+◌, ◌%◌, ◌^◌, ◌≤◌, ◌<◌, ◌≡◌, refl, ap, Bool, true, false, Option, none, some, List, [], ◌∷◌,
  arith, length, inl, inr, Bool-cases, ==_iff,
}
use dinari_blockchain_hub.Base.Eq.{nat_eq, list_beq_iff}
use dinari_blockchain_hub.Base.Map.{
  Map, lookup, insert, erase, HasUniqueKeys, lookup-erase, erase-HasUniqueKeys,
}
use dinari_blockchain_hub.Util.Serialize.{Bytes}
use dinari_blockchain_hub.Crypto.Hash.{Primitives}
use dinari_blockchain_hub.Core.Amount.{add_amount, amount_mod}
use dinari_blockchain_hub.Core.OutPoint.{OutPoint, beq_iff, out_point_eq}
use dinari_blockchain_hub.Core.TxOut.{TxOut}
use dinari_blockchain_hub.Core.TxIn.{TxIn}
use dinari_blockchain_hub.Core.Transaction.{Transaction, is_coinbase, get_hash}
use dinari_blockchain_hub.Core.Transaction.Validity.{total_value}
use dinari_blockchain_hub.Core.Utxo.{
  UtxoEntry, UtxoSet, spend_inputs, add_output, add_outputs, apply_transaction, sum_entries,
  get_total_value,
}
use dinari_blockchain_hub.Core.Utxo.Apply.{
  spends, spent, Distinct, spend_inputs_iff, add_output-lookup, created, spend_inputs-lookup,
}
use dinari_blockchain_hub.Core.Utxo.Revert.{names_output}

-- The value of all entries, with no wrap.
unfoldable pub value_of : Map OutPoint UtxoEntry → ℕ
value_of [] = 0
value_of ((o, e) ∷ m) = e.output.value + value_of m

unfoldable pub entry_value : Option UtxoEntry → ℕ
entry_value none = 0
entry_value (some e) = e.output.value

-- The value that the inputs refer to.
unfoldable pub input_value : Map OutPoint UtxoEntry → List TxIn → ℕ
unfolding entry_value
input_value m [] = 0
input_value m (i ∷ is) = entry_value (lookup i.prev_out m) + input_value m is

value_of-erase :
    (o : OutPoint) (m : Map OutPoint UtxoEntry)
    → value_of (erase o m) + entry_value (lookup o m) ≡ value_of m
unfolding value_of erase lookup entry_value
value_of-erase o [] = refl
value_of-erase o ((q, e) ∷ m) = ground (arith, value_of-erase o m)

value_of-insert :
    (o : OutPoint) (e : UtxoEntry) (m : Map OutPoint UtxoEntry)
    → lookup o m ≡ none
    → value_of (insert o e m) ≡ value_of m + e.output.value
unfolding value_of insert lookup
value_of-insert o e [] h = omega arith
value_of-insert o e ((q, f) ∷ m) h = ground (arith, value_of-insert o e m)

input_value-erase :
    (o : OutPoint) (is : List TxIn) (m : Map OutPoint UtxoEntry)
    → HasUniqueKeys m
    → spends o is ≡ false
    → input_value (erase o m) is ≡ input_value m is
unfolding input_value spends
input_value-erase o [] m k e = refl
input_value-erase o (i ∷ is) m k e = ground (
  arith,
  beq_iff o i.prev_out,
  beq_iff i.prev_out o,
  lookup-erase o i.prev_out m k,
  input_value-erase o is m k,
)

spend_inputs-value :
    (is : List TxIn) (u : UtxoSet)
    → HasUniqueKeys u.utxos
    → Distinct is
    → (spend_inputs is u).0 ≡ true
    → value_of (spend_inputs is u).1.utxos + input_value u.utxos is ≡ value_of u.utxos
unfolding spend_inputs input_value
spend_inputs-value [] u k d e = omega arith
spend_inputs-value (i ∷ is) u k d e =
    let left : UtxoSet = record u { utxos = erase i.prev_out u.utxos } in
    ground (
      arith,
      value_of-erase i.prev_out u.utxos,
      input_value-erase i.prev_out is u.utxos k d.0,
      erase-HasUniqueKeys i.prev_out u.utxos k,
      spend_inputs-value is left,
    )

-- Every output from index `n` on would be new.
abbrev pub Fresh : Bytes → ℕ → List TxOut → Map OutPoint UtxoEntry → Type 0
Fresh h n os m = (o : OutPoint) → names_output h n os o ≡ true → lookup o m ≡ none

names_output-above :
    (h : Bytes) (n : ℕ) (os : List TxOut) (o : OutPoint)
    → names_output h n os o ≡ true
    → n ≤ o.index
unfolding names_output
names_output-above h n [] o e = cc
names_output-above h n (x ∷ xs) o e = ground (arith, names_output-above h (n + 1) xs o)

add_output-Fresh :
    (h : Bytes) (height : ℕ) (c : Bool) (n : ℕ) (x : TxOut) (xs : List TxOut) (u : UtxoSet)
    → n < 2 ^ 32
    → Fresh h n (x ∷ xs) u.utxos
    → Fresh h (n + 1) xs (add_output h height c n x u).utxos
unfolding names_output created
add_output-Fresh h height c n x xs u lt f o e =
    ground
      (arith, add_output-lookup h height c n x u o lt, names_output-above h (n + 1) xs o e, f o)

add_output-value :
    (h : Bytes) (height : ℕ) (c : Bool) (n : ℕ) (x : TxOut) (xs : List TxOut) (u : UtxoSet)
    → n < 2 ^ 32
    → Fresh h n (x ∷ xs) u.utxos
    → value_of (add_output h height c n x u).utxos ≡ value_of u.utxos + x.value
unfolding add_output names_output
add_output-value h height c n x xs u lt f =
    let q : OutPoint = record { tx_hash = h; index = n } in
    rw (mod-eq_of_lt lt)
      (value_of-insert q _ u.utxos (f q (ground (arith, list_beq_iff h h, ==_iff n n))))

add_outputs-value :
    (h : Bytes) (height : ℕ) (c : Bool) (n : ℕ) (os : List TxOut) (u : UtxoSet)
    → n + length os ≤ 2 ^ 32
    → Fresh h n os u.utxos
    → value_of (add_outputs h height c n os u).utxos ≡ value_of u.utxos + total_value os
unfolding add_outputs total_value
add_outputs-value h height c n [] u le f = omega arith
add_outputs-value h height c n (x ∷ xs) u le f =
    let lt : n < 2 ^ 32 = omega arith in
    omega (
      arith,
      add_output-value h height c n x xs u lt f,
      add_outputs-value h height c (n + 1) xs (add_output h height c n x u) (omega arith)
          (add_output-Fresh h height c n x xs u lt f),
    )

spend_inputs-Fresh :
    (h : Bytes) (n : ℕ) (os : List TxOut) (is : List TxIn) (u : UtxoSet)
    → HasUniqueKeys u.utxos
    → (spend_inputs is u).0 ≡ true
    → Fresh h n os u.utxos
    → Fresh h n os (spend_inputs is u).1.utxos
spend_inputs-Fresh h n os is u k e f o q = ground (arith, spend_inputs-lookup o is u k e, f o q)

-- Money is conserved: after a transaction of at most 2^32 outputs has been applied with success to
-- a set with one entry for each outpoint, the value of the set and of the outputs that it spent is
-- the value before and that of the outputs that it created, where none of these was there before.
pub apply_transaction-value :
    (p : Primitives) (tx : Transaction) (height : ℕ) (u : UtxoSet)
    → HasUniqueKeys u.utxos
    → length tx.outputs ≤ 2 ^ 32
    → Fresh (get_hash p tx) 0 tx.outputs u.utxos
    → (apply_transaction p tx height u).0 ≡ true
    → value_of (apply_transaction p tx height u).1.utxos + input_value u.utxos (spent tx)
      ≡ value_of u.utxos + total_value tx.outputs
unfolding apply_transaction input_value
apply_transaction-value p tx height u k le f e = elim (Bool-cases (is_coinbase tx)) [
  | inl c ↦
      ground
        (arith, c, add_outputs-value (get_hash p tx) height true 0 tx.outputs u (omega arith) f)
  | inr c ↦
      let s = spend_inputs tx.inputs u in
      let ok : s.0 ≡ true = ground (arith, c, e) in
      let d = ((spend_inputs_iff tx.inputs u k).0 ok).1 in
      ground (
        arith,
        c,
        ok,
        spend_inputs-value tx.inputs u k d ok,
        add_outputs-value (get_hash p tx) height false 0 tx.outputs s.1 (omega arith)
            (spend_inputs-Fresh (get_hash p tx) 0 tx.outputs tx.inputs u k ok f),
      )
]

sum_entries-eq-value :
    (acc : ℕ) (m : Map OutPoint UtxoEntry)
    → sum_entries acc m % amount_mod ≡ (acc + value_of m) % amount_mod
unfolding sum_entries value_of
sum_entries-eq-value acc [] = ap (λ (t : ℕ). t % amount_mod) (omega arith)
sum_entries-eq-value acc ((o, e) ∷ m) =
    omega (arith, sum_entries-eq-value (add_amount acc e.output.value) m)

sum_entries-lt :
    (acc : ℕ) (m : Map OutPoint UtxoEntry) → acc < amount_mod → sum_entries acc m < amount_mod
unfolding sum_entries
sum_entries-lt acc [] h = h
sum_entries-lt acc ((o, e) ∷ m) h = sum_entries-lt (add_amount acc e.output.value) m (omega arith)

-- GetTotalValue is the value of all entries, cut to 64 bits.
pub get_total_value-value_of : (u : UtxoSet) → get_total_value u ≡ value_of u.utxos % amount_mod
unfolding get_total_value
get_total_value-value_of u =
    omega (arith, sum_entries-eq-value 0 u.utxos, sum_entries-lt 0 u.utxos (omega arith))
