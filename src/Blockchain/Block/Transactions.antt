-- ===== src/Blockchain/Block/Transactions.antt =====
-- The transactions of a valid block (src/blockchain/block.cpp).
use dinari_blockchain_hub.Base.{
  ℕ, ◌≡◌, ◌≢◌, ◌↔◌, refl, true, false, List, [], ◌∷◌, ◌++◌, arith, All,
}
use dinari_blockchain_hub.Base.Eq.{list_beq_iff, list_eq, nat_eq}
use dinari_blockchain_hub.Util.Serialize.{Bytes}
use dinari_blockchain_hub.Crypto.Hash.{Primitives}
use dinari_blockchain_hub.Core.Transaction
use dinari_blockchain_hub.Core.Transaction.{Transaction, is_coinbase, get_hash}
use dinari_blockchain_hub.Blockchain.Block.{
  Block, no_coinbase, all_valid, count, hashes_distinct, check_transactions, is_valid,
}

-- The transaction has another hash than each of the list.
abbrev pub NoSameHash : Primitives → Bytes → List Transaction → Type 0
NoSameHash p h [] = Unit
NoSameHash p h (tx ∷ txs) = (get_hash p tx ≢ h) × NoSameHash p h txs

abbrev pub DistinctHashes : Primitives → List Transaction → Type 0
DistinctHashes p [] = Unit
DistinctHashes p (tx ∷ txs) = NoSameHash p (get_hash p tx) txs × DistinctHashes p txs

-- None of the hashes has been seen.
abbrev Unseen : Primitives → List Bytes → List Transaction → Type 0
Unseen p seen = All (λ tx. count (get_hash p tx) seen ≡ false)

Unseen-∷ :
    (p : Primitives) (h : Bytes) (seen : List Bytes) (txs : List Transaction)
    → Unseen p (h ∷ seen) txs ↔ (NoSameHash p h txs × Unseen p seen txs)
unfolding count
Unseen-∷ p h seen [] = ground arith
Unseen-∷ p h seen (tx ∷ txs) = ground (arith, list_beq_iff (get_hash p tx) h, Unseen-∷ p h seen txs)

hashes_distinct_iff :
    (p : Primitives) (seen : List Bytes) (txs : List Transaction)
    → (hashes_distinct p seen txs ≡ true) ↔ (DistinctHashes p txs × Unseen p seen txs)
unfolding hashes_distinct
hashes_distinct_iff p seen [] = ground arith
hashes_distinct_iff p seen (tx ∷ txs) =
    ground
      (arith, hashes_distinct_iff p (get_hash p tx ∷ seen) txs, Unseen-∷ p (get_hash p tx) seen txs)

no_coinbase_iff :
    (txs : List Transaction) → (no_coinbase txs ≡ true) ↔ All (λ tx. is_coinbase tx ≡ false) txs
unfolding no_coinbase
no_coinbase_iff [] = (λ _. tt, λ _. refl)
no_coinbase_iff (tx ∷ txs) = ground (arith, no_coinbase_iff txs)

all_valid_iff :
    (txs : List Transaction)
    → (all_valid txs ≡ true) ↔ All (λ tx. Transaction.is_valid tx ≡ true) txs
unfolding all_valid
all_valid_iff [] = (λ _. tt, λ _. refl)
all_valid_iff (tx ∷ txs) = ground (arith, all_valid_iff txs)

Unseen-[] : (p : Primitives) (txs : List Transaction) → Unseen p [] txs
unfolding count
Unseen-[] p [] = tt
Unseen-[] p (tx ∷ txs) = (refl, Unseen-[] p txs)

-- CheckTransactions answers true on a first transaction and the others exactly if the first is a
-- coinbase and the others are none, all of them are valid, and no two of them have one hash.
pub check_transactions_iff :
    (p : Primitives) (first : Transaction) (txs : List Transaction)
    → (check_transactions p (first ∷ txs) ≡ true) ↔ (
        (is_coinbase first ≡ true)
        × All (λ tx. is_coinbase tx ≡ false) txs
        × All (λ tx. Transaction.is_valid tx ≡ true) (first ∷ txs)
        × DistinctHashes p (first ∷ txs))
unfolding check_transactions
check_transactions_iff p first txs = ground (
  arith,
  no_coinbase_iff txs,
  all_valid_iff (first ∷ txs),
  hashes_distinct_iff p [] (first ∷ txs),
  Unseen-[] p (first ∷ txs),
)

DistinctHashes-last :
    (p : Primitives) (l : List Transaction) (tx : Transaction)
    → DistinctHashes p (l ++ tx ∷ tx ∷ [])
    → ⊥
DistinctHashes-last p [] tx d = d.0.0 refl
DistinctHashes-last p (x ∷ l) tx d = DistinctHashes-last p l tx d.1

check_transactions-DistinctHashes :
    (p : Primitives) (txs : List Transaction)
    → check_transactions p txs ≡ true
    → DistinctHashes p txs
unfolding check_transactions
check_transactions-DistinctHashes p [] e = tt
check_transactions-DistinctHashes p (first ∷ txs) e =
    ground (arith, check_transactions_iff p first txs)

-- The transactions of a block that passes IsValid do not end in one transaction twice.
pub is_valid-last :
    (p : Primitives) (now : ℕ) (b : Block) (l : List Transaction) (tx : Transaction)
    → is_valid p now b ≡ true
    → b.transactions ≢ l ++ tx ∷ tx ∷ []
unfolding is_valid
is_valid-last p now b l tx e = λ same.
    let d : DistinctHashes p b.transactions =
      ground (arith, check_transactions-DistinctHashes p b.transactions) in
    DistinctHashes-last p l tx (rw same at d)
