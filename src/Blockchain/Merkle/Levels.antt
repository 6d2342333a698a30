-- ===== src/Blockchain/Merkle/Levels.antt =====
-- The levels of a Merkle tree: they shrink to one hash within the fuel, and a hash finds its
-- parent by its sibling.
use dinari_blockchain_hub.Base.{
  ℕ, zero, suc, ◌+◌, ◌-◌, ◌/◌, ◌%◌, ◌≤◌, ◌<◌, ◌≡◌, refl, some, List, [], ◌∷◌, arith, length,
  get_elem?, ◌==◌, Bool-cases, inl, inr,
}
use dinari_blockchain_hub.Util.Serialize.{Bytes}
use dinari_blockchain_hub.Crypto.Hash.{Primitives}
use dinari_blockchain_hub.Blockchain.Merkle.{next_level, top_level, combine, sibling_of}

sibling_of-suc-suc :
    (a b : Bytes) (r : List Bytes) (i : ℕ)
    → i < length r
    → sibling_of (a ∷ b ∷ r) (suc (suc i)) ≡ sibling_of r i
unfolding sibling_of
sibling_of-suc-suc a b r i h =
    let same : suc (suc i) % 2 ≡ i % 2 = omega arith in
    elim (Bool-cases (i % 2 == 1)) [
      | inl odd ↦
          let left : suc (suc i) - 1 ≡ suc (suc (i - 1)) = ground arith in
          rw (same, odd, left) (ground arith)
      | inr even ↦
          let right : suc (suc i) + 1 ≡ suc (suc (i + 1)) = omega arith in
          rw (same, even, right) (ground arith)
    ]

pub get_elem?-lt : (l : List Bytes) (i : ℕ) (h : Bytes) → get_elem? l i ≡ some h → i < length l
get_elem?-lt [] i h e = cc
get_elem?-lt (a ∷ l) zero h e = omega arith
get_elem?-lt (a ∷ l) (suc i) h e = omega (arith, get_elem?-lt l i h e)

module _ (p : Primitives) where
  pub length-next_level : (l : List Bytes) → length (next_level p l) ≡ (length l + 1) / 2
  unfolding next_level
  length-next_level [] = omega arith
  length-next_level (a ∷ []) = omega arith
  length-next_level (a ∷ b ∷ r) = omega (arith, length-next_level r)

  -- With as much fuel as hashes the loop ends with one hash, where there was one to begin with.
  pub length-top_level :
      (fuel : ℕ) (l : List Bytes) → 0 < length l → length l ≤ fuel → length (top_level p fuel l) ≡ 1
  unfolding top_level
  length-top_level zero l pos le = absurd (omega arith)
  length-top_level (suc f) l pos le =
      ground (arith, length-next_level l, length-top_level f (next_level p l))

  -- More fuel changes nothing.
  pub top_level-fuel :
      (f g : ℕ) (l : List Bytes) → length l ≤ f → length l ≤ g → top_level p f l ≡ top_level p g l
  unfolding top_level
  top_level-fuel zero zero l hf hg = refl
  top_level-fuel zero (suc g) l hf hg = ground arith
  top_level-fuel (suc f) zero l hf hg = ground arith
  top_level-fuel (suc f) (suc g) l hf hg =
      ground (arith, length-next_level l, top_level-fuel f g (next_level p l))

  -- The parent of the hash at `i` stands at `i / 2` one level up.
  pub get_elem?-next_level :
      (l : List Bytes) (i : ℕ) (h : Bytes)
      → get_elem? l i ≡ some h
      → get_elem? (next_level p l) (i / 2) ≡ some (combine p i (sibling_of l i) h)
  unfolding next_level combine sibling_of
  get_elem?-next_level [] i h e = cc
  get_elem?-next_level (a ∷ []) zero h e = ground arith
  get_elem?-next_level (a ∷ []) (suc i) h e = cc
  get_elem?-next_level (a ∷ b ∷ r) zero h e = ground arith
  get_elem?-next_level (a ∷ b ∷ r) (suc zero) h e = ground arith
  get_elem?-next_level (a ∷ b ∷ r) (suc (suc i)) h e =
      let up : suc (suc i) / 2 ≡ suc (i / 2) = omega arith in
      let same : suc (suc i) % 2 ≡ i % 2 = omega arith in
      rw (up, sibling_of-suc-suc a b r i (get_elem?-lt r i h e), same)
        (get_elem?-next_level r i h e)
