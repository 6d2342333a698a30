-- ===== src/Blockchain/Merkle/Inclusion.antt =====
-- Inclusion proofs (src/blockchain/merkle.cpp): the branch that is built for a leaf verifies
-- against the root, and the stored tree agrees with the functions on lists.
use dinari_blockchain_hub.Base.{
  ℕ, zero, suc, ◌+◌, ◌/◌, ◌%◌, ◌^◌, ◌≤◌, ◌<◌, ◌≡◌, ◌↔◌, refl, sym, true, false, some, List, [], ◌∷◌,
  arith, length, get_elem?, ltb, leb, if◌then◌else◌, Bool-cases, inl, inr,
}
use dinari_blockchain_hub.Base.Eq.{list_beq_iff, nat_eq}
use dinari_blockchain_hub.Util.Serialize.{Bytes}
use dinari_blockchain_hub.Crypto.Hash.{Primitives}
use dinari_blockchain_hub.Core.Transaction.{empty}
use dinari_blockchain_hub.Blockchain.Merkle.{
  at, next_level, top_level, compute_merkle_root, combine, climb, verify, sibling_of,
  collect_siblings, build_merkle_branch, levels_above, build, back, get_root, siblings_below,
  get_branch, verify_inclusion,
}
use dinari_blockchain_hub.Blockchain.Merkle.Levels.{
  length-next_level, get_elem?-next_level, get_elem?-lt,
}

at-get_elem? : (l : List Bytes) (i : ℕ) (h : Bytes) → get_elem? l i ≡ some h → at l i ≡ h
at-get_elem? l i h e = ground (arith, e)

empty-length : (l : List Bytes) → 0 < length l → empty l ≡ false
empty-length [] h = absurd (omega arith)
empty-length (a ∷ l) h = refl

get_elem?-at : (l : List Bytes) (i : ℕ) → i < length l → get_elem? l i ≡ some (at l i)
get_elem?-at [] i h = absurd (omega arith)
get_elem?-at (a ∷ l) zero h = refl
get_elem?-at (a ∷ l) (suc i) h = get_elem?-at l i (omega arith)

module _ (p : Primitives) where
  -- Climbing by the collected siblings ends at the one hash of the top level.
  climb-collect_siblings :
      (fuel : ℕ) (l : List Bytes) (i : ℕ) (h : Bytes)
      → length l ≤ fuel
      → i < 2 ^ 31
      → get_elem? l i ≡ some h
      → climb p i h (collect_siblings p fuel l i) ≡ at (top_level p fuel l) 0
  unfolding climb collect_siblings top_level
  climb-collect_siblings zero l i h le small e = absurd (omega (arith, get_elem?-lt l i h e))
  climb-collect_siblings (suc f) l i h le small e = elim (Bool-cases (ltb 1 (length l))) [
    | inl more ↦
        let half : i / 2 + (if leb (2 ^ 31) i then 2 ^ 31 else 0) ≡ i / 2 = ground arith in
        let up =
          climb-collect_siblings f (next_level p l) (i / 2) (combine p i (sibling_of l i) h)
            (ground (arith, length-next_level p l)) (omega arith)
            (get_elem?-next_level p l i h e) in
        ground (arith, more, half, up)
    | inr done ↦
        let first : i ≡ 0 = ground (arith, get_elem?-lt l i h e) in
        rw done (sym (at-get_elem? l 0 h (rw first at e)))
  ]

  pub compute_merkle_root-top_level :
      (l : List Bytes) → 0 < length l → compute_merkle_root p l ≡ at (top_level p (length l) l) 0
  unfolding compute_merkle_root top_level
  compute_merkle_root-top_level [] h = absurd (omega arith)
  compute_merkle_root-top_level (a ∷ []) h = refl
  compute_merkle_root-top_level (a ∷ b ∷ r) h = ground arith

  -- The branch that BuildMerkleBranch gives for a leaf verifies that leaf against the root that
  -- ComputeMerkleRoot gives, for every list of leaves and every index of a leaf below 2^31.
  pub verify-build_merkle_branch :
      (hashes : List Bytes) (i : ℕ) (h : Bytes)
      → i < 2 ^ 31
      → get_elem? hashes i ≡ some h
      → verify p (build_merkle_branch p hashes i) h (compute_merkle_root p hashes) ≡ true
  unfolding verify build_merkle_branch
  verify-build_merkle_branch hashes i h small e =
      let lt = get_elem?-lt hashes i h e in
      let no_wrap : i % 2 ^ 32 ≡ i = omega arith in
      let climbs = climb-collect_siblings (length hashes) hashes i h (omega arith) small e in
      ground (
        arith,
        no_wrap,
        lt,
        climbs,
        empty-length hashes,
        compute_merkle_root-top_level hashes,
        list_beq_iff (climb p i h (collect_siblings p (length hashes) hashes i))
            (compute_merkle_root p hashes),
      )

  -- The levels of the stored tree are those that the loops pass through.
  back-levels_above :
      (fuel : ℕ) (l : List Bytes) → back l (levels_above p fuel l) ≡ top_level p fuel l
  unfolding back levels_above top_level
  back-levels_above zero l = refl
  back-levels_above (suc f) l = ground (arith, back-levels_above f (next_level p l))

  siblings_below-levels_above :
      (fuel : ℕ) (l : List Bytes) (i : ℕ)
      → siblings_below l (levels_above p fuel l) i ≡ collect_siblings p fuel l i
  unfolding siblings_below levels_above collect_siblings
  siblings_below-levels_above zero l i = refl
  siblings_below-levels_above (suc f) l i =
      ground (arith, siblings_below-levels_above f (next_level p l) (i / 2))

  -- The tree that Build stores has the root that ComputeMerkleRoot gives and, at every index, the
  -- branch that BuildMerkleBranch gives.
  pub build-agrees :
      (hashes : List Bytes) (i : ℕ)
      → (get_root (build p hashes) ≡ compute_merkle_root p hashes)
        × (get_branch (build p hashes) i ≡ build_merkle_branch p hashes i)
  unfolding get_root get_branch build build_merkle_branch compute_merkle_root
  build-agrees [] i = (refl, refl)
  build-agrees (a ∷ r) i = ground (
    arith,
    back-levels_above (length (a ∷ r)) (a ∷ r),
    siblings_below-levels_above (length (a ∷ r)) (a ∷ r) i,
    compute_merkle_root-top_level (a ∷ r),
  )

  -- For an index below 2^31, VerifyInclusion on the tree that Build makes answers true exactly for
  -- the hash that stands at the index among the leaves.
  pub verify_inclusion_iff :
      (hashes : List Bytes) (i : ℕ) (h : Bytes)
      → i < 2 ^ 31
      → (verify_inclusion p (build p hashes) h i ≡ true) ↔ (get_elem? hashes i ≡ some h)
  unfolding verify_inclusion build
  verify_inclusion_iff [] i h small = (λ q. cc, λ q. cc)
  verify_inclusion_iff (a ∷ r) i h small =
      let l = a ∷ r in
      let (root, branch) = build-agrees l i in
      (
        λ q. ground (arith, q, get_elem?-at l i, list_beq_iff (at l i) h),
        λ q. ground (
          arith,
          q,
          get_elem?-lt l i h q,
          at-get_elem? l i h q,
          list_beq_iff (at l i) h,
          root,
          branch,
          verify-build_merkle_branch l i h small q,
        ),
      )
