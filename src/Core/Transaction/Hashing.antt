-- ===== src/Core/Transaction/Hashing.antt =====
-- Transaction hashes (src/core/transaction.cpp): the cached hash, and what a signature covers.
use dinari_blockchain_hub.Base.{ℕ, suc, ◌+◌, ◌≡◌, refl, ap, true, List, [], ◌∷◌, arith, length}
use dinari_blockchain_hub.Util.Serialize.{Bytes, Serializer}
use dinari_blockchain_hub.Crypto.Hash.{Primitives, double_sha256}
use dinari_blockchain_hub.Core.TxIn.{TxIn}
use dinari_blockchain_hub.Core.Transaction.{
  Transaction, serialize, get_hash, cache_hash, write_signed_inputs, signature_preimage,
  get_signature_hash,
}

-- A cached hash is the hash of the fields as they stand.
abbrev pub IsCoherent : Primitives → Transaction → Type 0
IsCoherent p tx = tx.hash_cached ≡ true → tx.cached_hash ≡ double_sha256 p (serialize tx [])

-- On a coherent transaction GetHash is the double SHA-256 of the serialized fields, before and
-- after it has filled the cache, and the cache that it leaves is coherent.
pub get_hash-IsCoherent :
    (p : Primitives) (tx : Transaction)
    → IsCoherent p tx
    → (get_hash p tx ≡ double_sha256 p (serialize tx []))
      × (get_hash p (cache_hash p tx) ≡ get_hash p tx)
      × IsCoherent p (cache_hash p tx)
unfolding get_hash cache_hash serialize
get_hash-IsCoherent p tx c = ground arith

-- The inputs with other scripts in them: `f` gives the script at each index.
pub with_scripts : (ℕ → Bytes) → ℕ → List TxIn → List TxIn
with_scripts f n [] = []
with_scripts f n (i ∷ is) = record i { script_sig = f n } ∷ with_scripts f (n + 1) is

length-with_scripts :
    (f : ℕ → Bytes) (n : ℕ) (is : List TxIn) → length (with_scripts f n is) ≡ length is
unfolding with_scripts
length-with_scripts f n [] = refl
length-with_scripts f n (i ∷ is) = ap suc (length-with_scripts f (n + 1) is)

write_signed_inputs-with_scripts :
    (f : ℕ → Bytes) (k : ℕ) (code : Bytes) (n m : ℕ) (is : List TxIn) (s : Serializer)
    → write_signed_inputs k code n (with_scripts f m is) s ≡ write_signed_inputs k code n is s
unfolding with_scripts write_signed_inputs
write_signed_inputs-with_scripts f k code n m [] s = refl
write_signed_inputs-with_scripts f k code n m (i ∷ is) s =
    write_signed_inputs-with_scripts f k code (n + 1) (m + 1) is _

-- The hash that a signature covers does not depend on any scriptSig: with any scripts put into the
-- inputs it is the same.
pub get_signature_hash-with_scripts :
    (p : Primitives) (f : ℕ → Bytes) (k : ℕ) (code : Bytes) (hash_type : ℕ) (tx : Transaction)
    → get_signature_hash p k code hash_type (record tx { inputs = with_scripts f 0 tx.inputs })
      ≡ get_signature_hash p k code hash_type tx
unfolding get_signature_hash signature_preimage
get_signature_hash-with_scripts p f k code hash_type tx =
    simp (length-with_scripts, write_signed_inputs-with_scripts)
