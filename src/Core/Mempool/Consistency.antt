-- ===== src/Core/Mempool/Consistency.antt =====
-- The invariant of the memory pool (src/core/mempool.cpp): its two indices and its two sums say
-- what its entries say. The lemmas are on the index by outpoint and on the index by fee rate.
use dinari_blockchain_hub.Base.{
  ℕ, ◌+◌, ◌%◌, ◌≤◌, ◌≡◌, inl, inr, Bool-cases, ◌==◌, refl, Bool, true, false, not, ◌&&◌, ◌||◌, none,
  some, List, [], ◌∷◌, if◌then◌else◌, arith, All, leb, ==_iff,
}
use dinari_blockchain_hub.Base.Eq.{◌=?◌, nat_eq, list_eq, list_beq_iff}
use dinari_blockchain_hub.Base.Map.{
  Map, lookup, insert, erase, HasUniqueKeys, lookup-insert, lookup-erase, insert-HasUniqueKeys,
  erase-HasUniqueKeys,
}
use dinari_blockchain_hub.Util.Serialize.{Bytes, size_mod}
use dinari_blockchain_hub.Crypto.Hash.{Primitives}
use dinari_blockchain_hub.Core.Amount.{amount_mod}
use dinari_blockchain_hub.Core.OutPoint.{OutPoint, out_point_eq, beq_iff}
use dinari_blockchain_hub.Core.TxIn
use dinari_blockchain_hub.Core.TxIn.{TxIn}
use dinari_blockchain_hub.Core.Transaction
use dinari_blockchain_hub.Core.Transaction.{get_hash}
use dinari_blockchain_hub.Core.Mempool.{
  MemPoolEntry, MemPool, get_fee_rate, index_inputs, unindex_inputs, inputs_conflict, emplace,
  erase_fee, has_transaction,
}

-- Whether an input, no coinbase's, refers to the outpoint.
unfoldable pub claims : OutPoint → List TxIn → Bool
claims o [] = false
claims o (i ∷ is) = (not (TxIn.is_coinbase i) && i.prev_out =? o) || claims o is

-- How often the hash stands in the index by fee rate.
unfoldable pub fee_count : Bytes → List (ℕ × Bytes) → ℕ
fee_count h [] = 0
fee_count h ((r, g) ∷ l) = (if g =? h then 1 else 0) + fee_count h l

unfoldable pub size_sum : Map Bytes MemPoolEntry → ℕ
size_sum [] = 0
size_sum ((h, e) ∷ m) = e.size + size_sum m

unfoldable pub fee_sum : Map Bytes MemPoolEntry → ℕ
fee_sum [] = 0
fee_sum ((h, e) ∷ m) = e.fee + fee_sum m

-- The pair is that of an entry.
abbrev pub Rates : Map Bytes MemPoolEntry → ℕ × Bytes → Type 0
Rates m q = (e : MemPoolEntry) × (lookup q.1 m ≡ some e) × (get_fee_rate e ≡ q.0)

-- Each outpoint that an entry spends is under that entry in the index by outpoint, and no other
-- is there; the index by fee rate has each entry once, under its rate; the sums are those of the
-- entries, cut to 64 bits.
pub record IsConsistent (p : Primitives) (m : MemPool) : Type 0 where
  pub keys : HasUniqueKeys m.transactions
  pub index_keys : HasUniqueKeys m.input_index
  pub named :
      (h : Bytes) (e : MemPoolEntry) → lookup h m.transactions ≡ some e → get_hash p e.tx ≡ h
  pub sized :
      (h : Bytes) (e : MemPoolEntry)
      → lookup h m.transactions ≡ some e
      → e.size ≡ Transaction.get_size e.tx
  pub indexed :
      (h : Bytes) (e : MemPoolEntry) (o : OutPoint)
      → lookup h m.transactions ≡ some e
      → claims o e.tx.inputs ≡ true
      → lookup o m.input_index ≡ some h
  pub owned :
      (o : OutPoint) (h : Bytes)
      → lookup o m.input_index ≡ some h
      → (e : MemPoolEntry) × (lookup h m.transactions ≡ some e) × (claims o e.tx.inputs ≡ true)
  pub listed : (h : Bytes) → fee_count h m.fee_index ≡ (if has_transaction h m then 1 else 0)
  pub rated : All (Rates m.transactions) m.fee_index
  pub sizes : m.total_size ≡ size_sum m.transactions % size_mod
  pub fees : m.total_fees ≡ fee_sum m.transactions % amount_mod

pub lookup-index_inputs :
    (o : OutPoint) (h : Bytes) (is : List TxIn) (m : Map OutPoint Bytes)
    → lookup o (index_inputs h is m) ≡ (if claims o is then some h else lookup o m)
unfolding index_inputs claims
lookup-index_inputs o h [] m = refl
lookup-index_inputs o h (i ∷ is) m = ground (
  arith,
  lookup-insert i.prev_out o h m,
  lookup-index_inputs o h is m,
  lookup-index_inputs o h is (insert i.prev_out h m),
)

pub index_inputs-HasUniqueKeys :
    (h : Bytes) (is : List TxIn) (m : Map OutPoint Bytes)
    → HasUniqueKeys m
    → HasUniqueKeys (index_inputs h is m)
unfolding index_inputs
index_inputs-HasUniqueKeys h [] m k = k
index_inputs-HasUniqueKeys h (i ∷ is) m k = ground (
  arith,
  insert-HasUniqueKeys i.prev_out h m k,
  index_inputs-HasUniqueKeys h is m,
  index_inputs-HasUniqueKeys h is (insert i.prev_out h m),
)

pub unindex_inputs-HasUniqueKeys :
    (is : List TxIn) (m : Map OutPoint Bytes)
    → HasUniqueKeys m
    → HasUniqueKeys (unindex_inputs is m)
unfolding unindex_inputs
unindex_inputs-HasUniqueKeys [] m k = k
unindex_inputs-HasUniqueKeys (i ∷ is) m k = ground (
  arith,
  erase-HasUniqueKeys i.prev_out m k,
  unindex_inputs-HasUniqueKeys is m,
  unindex_inputs-HasUniqueKeys is (erase i.prev_out m),
)

pub lookup-unindex_inputs :
    (o : OutPoint) (is : List TxIn) (m : Map OutPoint Bytes)
    → HasUniqueKeys m
    → lookup o (unindex_inputs is m) ≡ (if claims o is then none else lookup o m)
unfolding unindex_inputs claims
lookup-unindex_inputs o [] m k = refl
lookup-unindex_inputs o (i ∷ is) m k = ground (
  arith,
  erase-HasUniqueKeys i.prev_out m k,
  lookup-erase i.prev_out o m k,
  lookup-unindex_inputs o is m,
  lookup-unindex_inputs o is (erase i.prev_out m),
)

-- Without a conflict the index has nothing of what the inputs refer to.
pub inputs_conflict-false :
    (o : OutPoint) (index : Map OutPoint Bytes) (is : List TxIn)
    → inputs_conflict index is ≡ false
    → claims o is ≡ true
    → lookup o index ≡ none
unfolding inputs_conflict claims
inputs_conflict-false o index [] e c = absurd (cc c)
inputs_conflict-false o index (i ∷ is) e c =
    ground (arith, beq_iff i.prev_out o, inputs_conflict-false o index is)

pub fee_count-emplace :
    (h g : Bytes) (r : ℕ) (l : List (ℕ × Bytes))
    → fee_count h (emplace r g l) ≡ fee_count h l + (if g =? h then 1 else 0)
unfolding fee_count emplace
fee_count-emplace h g r [] = omega arith
fee_count-emplace h g r ((s, f) ∷ l) = ground (arith, fee_count-emplace h g r l)

pub emplace-All :
    (P : ℕ × Bytes → Type 0) (g : Bytes) (r : ℕ) (l : List (ℕ × Bytes))
    → P (r, g)
    → All P l
    → All P (emplace r g l)
unfolding emplace
emplace-All P g r [] x a = (x, tt)
emplace-All P g r ((s, f) ∷ l) x a = elim (Bool-cases (leb s r)) [
  | inl t ↦ rw t (a.0, emplace-All P g r l x a.1)
  | inr t ↦ rw t (x, a)
]

pub erase_fee-All :
    (P : ℕ × Bytes → Type 0) (g : Bytes) (r : ℕ) (l : List (ℕ × Bytes))
    → All P l
    → All P (erase_fee r g l)
unfolding erase_fee
erase_fee-All P g r [] a = tt
erase_fee-All P g r ((s, f) ∷ l) a = elim (Bool-cases (s == r && f =? g)) [
  | inl t ↦ rw t a.1
  | inr t ↦ rw t (a.0, erase_fee-All P g r l a.1)
]

-- The hash is in the index, always under the rate: it is there once less after the erasure, and
-- all others stay.
pub fee_count-erase_fee :
    (h g : Bytes) (r : ℕ) (l : List (ℕ × Bytes))
    → All (λ q. q.1 ≡ g → q.0 ≡ r) l
    → 1 ≤ fee_count g l
    → fee_count h (erase_fee r g l) + (if g =? h then 1 else 0) ≡ fee_count h l
unfolding fee_count erase_fee
fee_count-erase_fee h g r [] a n = absurd (omega arith)
fee_count-erase_fee h g r ((s, f) ∷ l) a n = ground (
  arith,
  a,
  list_beq_iff f g,
  list_beq_iff f h,
  list_beq_iff g h,
  ==_iff s r,
  fee_count-erase_fee h g r l,
)

-- A hash that the index does not have is that of none of its pairs.
pub fee_count-zero :
    (P : ℕ × Bytes → Type 0) (g : Bytes) (l : List (ℕ × Bytes))
    → fee_count g l ≡ 0
    → All P l
    → All (λ q. P q × ((g =? q.1) ≡ false)) l
unfolding fee_count
fee_count-zero P g [] e a = tt
fee_count-zero P g ((s, f) ∷ l) e a =
    let other : (g =? f) ≡ false = ground (arith, list_beq_iff f g, list_beq_iff g f) in
    ((a.0, other), fee_count-zero P g l (ground arith) a.1)

pub size_sum-erase :
    (h : Bytes) (e : MemPoolEntry) (m : Map Bytes MemPoolEntry)
    → lookup h m ≡ some e
    → size_sum (erase h m) + e.size ≡ size_sum m
unfolding size_sum erase lookup
size_sum-erase h e [] f = absurd (cc f)
size_sum-erase h e ((g, d) ∷ m) f = ground (arith, size_sum-erase h e m)

pub size_sum-insert :
    (h : Bytes) (e : MemPoolEntry) (m : Map Bytes MemPoolEntry)
    → lookup h m ≡ none
    → size_sum (insert h e m) ≡ size_sum m + e.size
unfolding size_sum insert lookup
size_sum-insert h e [] f = omega arith
size_sum-insert h e ((g, d) ∷ m) f = ground (arith, size_sum-insert h e m)

pub fee_sum-erase :
    (h : Bytes) (e : MemPoolEntry) (m : Map Bytes MemPoolEntry)
    → lookup h m ≡ some e
    → fee_sum (erase h m) + e.fee ≡ fee_sum m
unfolding fee_sum erase lookup
fee_sum-erase h e [] f = absurd (cc f)
fee_sum-erase h e ((g, d) ∷ m) f = ground (arith, fee_sum-erase h e m)

pub fee_sum-insert :
    (h : Bytes) (e : MemPoolEntry) (m : Map Bytes MemPoolEntry)
    → lookup h m ≡ none
    → fee_sum (insert h e m) ≡ fee_sum m + e.fee
unfolding fee_sum insert lookup
fee_sum-insert h e [] f = omega arith
fee_sum-insert h e ((g, d) ∷ m) f = ground (arith, fee_sum-insert h e m)
