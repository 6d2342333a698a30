-- ===== src/Core/Utxo/Address.antt =====
-- The index by address of UTXOSet (src/core/utxo.cpp): which entries GetUTXOsForAddress finds.
use dinari_blockchain_hub.Base.{
  ℕ, ◌+◌, ◌≡◌, ◌⊎◌, refl, sym, Bool, true, false, ◌||◌, some, List, [], ◌∷◌, ◌++◌, arith, inl, inr,
  Option-cases, Bool-cases, All,
}
use dinari_blockchain_hub.Base.Eq.{◌=?◌, nat_eq, list_beq, list_beq_iff, list_eq}
use dinari_blockchain_hub.Base.Map.{
  Map, lookup, erase, HasUniqueKeys, lookup-insert, lookup-erase, lookup-erase_ne,
  erase-HasUniqueKeys,
}
use dinari_blockchain_hub.Util.Serialize.{Bytes}
use dinari_blockchain_hub.Crypto.Hash.{Primitives}
use dinari_blockchain_hub.Core.OutPoint.{OutPoint, beq, beq_iff, out_point_eq}
use dinari_blockchain_hub.Core.TxOut.{TxOut}
use dinari_blockchain_hub.Core.TxIn.{TxIn}
use dinari_blockchain_hub.Core.Transaction.{Transaction, is_coinbase, get_hash, empty}
use dinari_blockchain_hub.Core.Utxo.{
  UtxoEntry, UtxoSet, extract_address_from_script, indexed, index_out_point, add_utxo, remove_all,
  unindex_out_point, remove_utxo, spend_inputs, add_output, add_outputs, apply_transaction, present,
  get_utxos_for_address,
}

unfoldable pub listed : OutPoint → List OutPoint → Bool
listed o [] = false
listed o (x ∷ xs) = (x =? o) || listed o xs

-- Whether the answer of a query holds this outpoint with this entry.
abbrev pub Finds : OutPoint → UtxoEntry → List (OutPoint × UtxoEntry) → Type 0
Finds o e [] = ⊥
Finds o e ((q, f) ∷ r) = ((q ≡ o) × (f ≡ e)) ⊎ Finds o e r

listed-append :
    (o q : OutPoint) (xs : List OutPoint) → listed o (xs ++ q ∷ []) ≡ (listed o xs || (q =? o))
unfolding listed
listed-append o q [] = ground arith
listed-append o q (x ∷ xs) = ground (arith, listed-append o q xs)

listed-remove_all :
    (o q : OutPoint) (xs : List OutPoint)
    → (q =? o) ≡ false
    → listed o (remove_all q xs) ≡ listed o xs
unfolding listed remove_all
listed-remove_all o q [] h = refl
listed-remove_all o q (x ∷ xs) h =
    ground (arith, beq_iff x q, beq_iff x o, beq_iff q o, listed-remove_all o q xs h)

listed-empty : (o : OutPoint) (xs : List OutPoint) → listed o xs ≡ true → empty xs ≡ false
unfolding listed
listed-empty o [] h = sym h
listed-empty o (x ∷ xs) h = refl

-- Every unspent output that pays to an address stands in the list of that address.
abbrev pub IsIndexed : UtxoSet → Type 0
IsIndexed u =
    (o : OutPoint) (e : UtxoEntry) (addr : Bytes)
    → lookup o u.utxos ≡ some e
    → extract_address_from_script e.output.script_pub_key ≡ some addr
    → listed o (indexed addr u.address_index) ≡ true

-- What one call of the indexing adds, seen at any address.
index_out_point-listed :
    (script : Bytes) (q o : OutPoint) (addr : Bytes) (index : Map Bytes (List OutPoint))
    → listed o (indexed addr index) ≡ true
    → listed o (indexed addr (index_out_point script q index)) ≡ true
unfolding index_out_point
index_out_point-listed script q o addr index h =
    elim (Option-cases (extract_address_from_script script)) [
      | inl e ↦ ground (arith, e, h)
      | inr (a, e) ↦ ground (
        arith,
        e,
        h,
        lookup-insert a addr (indexed a index ++ q ∷ []) index,
        list_beq_iff a addr,
        listed-append o q (indexed a index),
      )
    ]

index_out_point_self :
    (script : Bytes) (q : OutPoint) (addr : Bytes) (index : Map Bytes (List OutPoint))
    → extract_address_from_script script ≡ some addr
    → listed q (indexed addr (index_out_point script q index)) ≡ true
unfolding index_out_point
index_out_point_self script q addr index e = ground (
  arith,
  e,
  lookup-insert addr addr (indexed addr index ++ q ∷ []) index,
  list_beq_iff addr addr,
  listed-append q q (indexed addr index),
  beq_iff q q,
)

add_utxo-IsIndexed :
    (q : OutPoint) (f : UtxoEntry) (u : UtxoSet) → IsIndexed u → IsIndexed (add_utxo q f u)
unfolding add_utxo
add_utxo-IsIndexed q f u h o e addr found pays = elim (Bool-cases (beq q o)) [
  | inl same ↦ ground (
    arith,
    beq_iff q o,
    lookup-insert q o f u.utxos,
    index_out_point_self f.output.script_pub_key q addr u.address_index,
  )
  | inr other ↦ ground (
    arith,
    other,
    lookup-insert q o f u.utxos,
    h o e addr,
    index_out_point-listed f.output.script_pub_key q o addr u.address_index,
  )
]

spend_inputs-IsIndexed :
    (is : List TxIn) (u : UtxoSet)
    → HasUniqueKeys u.utxos
    → IsIndexed u
    → IsIndexed (spend_inputs is u).1
unfolding spend_inputs
spend_inputs-IsIndexed [] u k h = h
spend_inputs-IsIndexed (i ∷ is) u k h =
    let left : UtxoSet = record u { utxos = erase i.prev_out u.utxos } in
    elim (Option-cases (lookup i.prev_out u.utxos)) [
      | inl e ↦ rw (e, spend_inputs) h
      | inr (v, e) ↦
          rw (e, spend_inputs)
            (spend_inputs-IsIndexed is left (erase-HasUniqueKeys i.prev_out u.utxos k)
              λ o f addr found pays.
                ground (arith, found, lookup-erase i.prev_out o u.utxos k, h o f addr, pays))
    ]

add_outputs-IsIndexed :
    (h : Bytes) (height : ℕ) (c : Bool) (n : ℕ) (os : List TxOut) (u : UtxoSet)
    → IsIndexed u
    → IsIndexed (add_outputs h height c n os u)
unfolding add_outputs add_output add_utxo
add_outputs-IsIndexed h height c n [] u v = v
add_outputs-IsIndexed h height c n (x ∷ xs) u v =
    add_outputs-IsIndexed h height c (n + 1) xs (add_output h height c n x u)
      (add_utxo-IsIndexed _ _ u v)

-- On a set with one entry for each outpoint, ApplyTransaction keeps the address index complete,
-- whether it succeeds or fails on the way: each unspent output that pays to an address is listed
-- under it.
pub apply_transaction-IsIndexed :
    (p : Primitives) (tx : Transaction) (height : ℕ) (u : UtxoSet)
    → HasUniqueKeys u.utxos
    → IsIndexed u
    → IsIndexed (apply_transaction p tx height u).1
unfolding apply_transaction
apply_transaction-IsIndexed p tx height u k v = elim (Bool-cases (is_coinbase tx)) [
  | inl c ↦
      λ o. ground (arith, c, add_outputs-IsIndexed (get_hash p tx) height true 0 tx.outputs u v o)
  | inr c ↦
      let s = spend_inputs tx.inputs u in
      let left = spend_inputs-IsIndexed tx.inputs u k v in
      λ o. ground (
        arith,
        c,
        left o,
        add_outputs-IsIndexed (get_hash p tx) height false 0 tx.outputs s.1 left o,
      )
]

unindex_out_point-listed :
    (script : Bytes) (q o : OutPoint) (addr : Bytes) (index : Map Bytes (List OutPoint))
    → (q =? o) ≡ false
    → listed o (indexed addr index) ≡ true
    → listed o (indexed addr (unindex_out_point script q index)) ≡ true
unfolding unindex_out_point
unindex_out_point-listed script q o addr index ne h =
    elim (Option-cases (extract_address_from_script script)) [
      | inl e ↦ ground (arith, e, h)
      | inr (a, e) ↦
          let vec = remove_all q (indexed a index) in
          let rest = listed-remove_all o q (indexed a index) ne in
          elim (Bool-cases (list_beq a addr)) [
            | inl same ↦ ground (
              arith,
              e,
              h,
              rest,
              list_beq_iff a addr,
              listed-empty o vec,
              lookup-insert a addr vec index,
            )
            | inr other ↦ ground (
              arith,
              e,
              h,
              other,
              lookup-insert a addr vec index,
              lookup-erase_ne a addr index other,
            )
          ]
    ]

-- On a set with one entry for each outpoint, RemoveUTXO keeps the address index complete.
pub remove_utxo-IsIndexed :
    (q : OutPoint) (u : UtxoSet)
    → HasUniqueKeys u.utxos
    → IsIndexed u
    → IsIndexed (remove_utxo q u).1
unfolding remove_utxo
remove_utxo-IsIndexed q u k v o e addr found pays = elim (Option-cases (lookup q u.utxos)) [
  | inl missing ↦ ground (arith, missing, found, v o e addr)
  | inr (f, here) ↦ ground (
    arith,
    here,
    found,
    lookup-erase q o u.utxos k,
    v o e addr,
    unindex_out_point-listed f.output.script_pub_key q o addr u.address_index,
  )
]

present_sound :
    (m : Map OutPoint UtxoEntry) (os : List OutPoint)
    → All (λ r. lookup r.0 m ≡ some r.1) (present m os)
unfolding present
present_sound m [] = tt
present_sound m (o ∷ os) = ground (arith, present_sound m os)

present_complete :
    (m : Map OutPoint UtxoEntry) (os : List OutPoint) (o : OutPoint) (e : UtxoEntry)
    → lookup o m ≡ some e
    → listed o os ≡ true
    → Finds o e (present m os)
unfolding present listed
present_complete m [] o e found h = cc
present_complete m (q ∷ os) o e found h =
    ground (arith, found, beq_iff q o, present_complete m os o e found)

-- With a complete index, GetUTXOsForAddress finds an unspent output that pays to the address, and
-- all that it finds is unspent.
pub get_utxos_for_address_complete :
    (addr : Bytes) (u : UtxoSet) (o : OutPoint) (e : UtxoEntry)
    → IsIndexed u
    → lookup o u.utxos ≡ some e
    → extract_address_from_script e.output.script_pub_key ≡ some addr
    → Finds o e (get_utxos_for_address addr u)
      × All (λ r. lookup r.0 u.utxos ≡ some r.1) (get_utxos_for_address addr u)
unfolding get_utxos_for_address
get_utxos_for_address_complete addr u o e v found pays = (
  present_complete u.utxos (indexed addr u.address_index) o e found (v o e addr found pays),
  present_sound u.utxos (indexed addr u.address_index),
)
