-- ===== src/Blockchain/Merkle/Malleability.antt =====
-- Duplicated last hashes (src/crypto/hash.cpp): two lists of transactions with one root.
use dinari_blockchain_hub.Base.{
  ℕ, suc, ◌+◌, ◌%◌, ◌≤◌, ◌<◌, ◌≡◌, refl, ap, ◌∙◌, sym, List, [], ◌∷◌, ◌++◌, arith, length,
  length-append,
}
use dinari_blockchain_hub.Util.Serialize.{Bytes}
use dinari_blockchain_hub.Crypto.Hash.{Primitives}
use dinari_blockchain_hub.Blockchain.Merkle.{at, next_level, top_level, compute_merkle_root}
use dinari_blockchain_hub.Blockchain.Merkle.Levels.{top_level-fuel}
use dinari_blockchain_hub.Blockchain.Merkle.Inclusion.{compute_merkle_root-top_level}

module _ (p : Primitives) where
  next_level-duplicate :
      (l : List Bytes) (h : Bytes)
      → length l % 2 ≡ 0
      → next_level p (l ++ h ∷ []) ≡ next_level p (l ++ h ∷ h ∷ [])
  unfolding next_level
  next_level-duplicate [] h e = refl
  next_level-duplicate (a ∷ []) h e = absurd (omega arith)
  next_level-duplicate (a ∷ b ∷ r) h e = ground (arith, next_level-duplicate r h)

  top_level-step :
      (f : ℕ) (l : List Bytes)
      → 1 < length l
      → top_level p (suc f) l ≡ top_level p f (next_level p l)
  unfolding top_level
  top_level-step f l h = ground arith

  -- An odd number of leaves from three on, and the same leaves with the last one repeated, have
  -- the same root.
  pub compute_merkle_root-duplicate :
      (l : List Bytes) (h : Bytes)
      → 2 ≤ length l
      → length l % 2 ≡ 0
      → compute_merkle_root p (l ++ h ∷ h ∷ []) ≡ compute_merkle_root p (l ++ h ∷ [])
  compute_merkle_root-duplicate l h two e =
      let odd = l ++ h ∷ [] in
      let even = l ++ h ∷ h ∷ [] in
      let odd_length : length odd ≡ length l + 1 = omega (arith, length-append l (h ∷ [])) in
      let even_length : length even ≡ length l + 2 = omega (arith, length-append l (h ∷ h ∷ [])) in
      let n = length l + 2 in
      compute_merkle_root-top_level p even (omega arith)
      ∙ ap (λ t. at t 0)
          (top_level-fuel p (length even) (suc n) even (omega arith) (omega arith)
            ∙ top_level-step n even (omega arith)
            ∙ ap (top_level p n) (sym (next_level-duplicate l h e))
            ∙ sym (top_level-step n odd (omega arith))
            ∙ top_level-fuel p (suc n) (length odd) odd (omega arith) (omega arith))
      ∙ sym (compute_merkle_root-top_level p odd (omega arith))
