-- ===== src/Blockchain/Merkle.antt =====
-- src/blockchain/merkle.h and merkle.cpp, with ComputeMerkleRoot of src/crypto/hash.cpp. A loop
-- `while (level.size() > 1)` runs on fuel, the number of the leaves; Merkle/Levels shows that this
-- is enough. An `int` is its 32-bit pattern.
pub mod Levels
pub mod Inclusion
pub mod Malleability
use dinari_blockchain_hub.Base.{
  ℕ, zero, suc, ◌+◌, ◌-◌, ◌/◌, ◌%◌, ◌^◌, Bool, true, false, not, ◌||◌, Option, none, some, List, [],
  ◌∷◌, ltb, leb, ◌==◌, if◌then◌else◌, length, get_elem?,
}
use dinari_blockchain_hub.Base.Eq.{list_beq, nat_eq}
use dinari_blockchain_hub.Util.Serialize.{Bytes}
use dinari_blockchain_hub.Crypto.Hash.{Primitives, merkle_hash, zero_hash}
use dinari_blockchain_hub.Core.Transaction.{empty}

-- level[i]; the calls are in range.
abbrev pub at : List Bytes → ℕ → Bytes
at level i = elim (get_elem? level i) [ none ↦ zero_hash | some h ↦ h ]

-- The loop that pairs up a level, duplicating a last hash that has no partner.
unfoldable pub next_level : Primitives → List Bytes → List Bytes
next_level p [] = []
next_level p (a ∷ []) = merkle_hash p a a ∷ []
next_level p (a ∷ b ∷ rest) = merkle_hash p a b ∷ next_level p rest

-- `while (level.size() > 1)` of ComputeMerkleRoot: the level that it ends with.
unfoldable pub top_level : Primitives → ℕ → List Bytes → List Bytes
top_level p zero level = level
top_level p (suc fuel) level =
    let rest = top_level p fuel (next_level p level) in if ltb 1 (length level) then rest else level

unfoldable pub compute_merkle_root : Primitives → List Bytes → Bytes
unfolding top_level
compute_merkle_root p hashes =
    if empty hashes
    then zero_hash
    else if length hashes == 1
    then at hashes 0
    else at (top_level p (length hashes) hashes) 0

pub record MerkleBranch : Type 0 where
  pub branch : List Bytes
  pub index : ℕ

-- `idx >>= 1` on an int.
abbrev pub shift_right_int : ℕ → ℕ
shift_right_int i = i / 2 + (if leb (2 ^ 31) i then 2 ^ 31 else 0)

-- One step up: the sibling stands left of an odd node and right of an even one.
unfoldable pub combine : Primitives → ℕ → Bytes → Bytes → Bytes
combine p idx sibling hash =
    if idx % 2 == 1 then merkle_hash p sibling hash else merkle_hash p hash sibling

unfoldable pub climb : Primitives → ℕ → Bytes → List Bytes → Bytes
unfolding combine
climb p idx hash [] = hash
climb p idx hash (sibling ∷ rest) = climb p (shift_right_int idx) (combine p idx sibling hash) rest

unfoldable pub verify : Primitives → MerkleBranch → Bytes → Bytes → Bool
unfolding climb
verify p b tx_hash merkle_root = list_beq (climb p b.index tx_hash b.branch) merkle_root

unfoldable pub sibling_of : List Bytes → ℕ → Bytes
sibling_of level idx =
    let sibling_idx = if idx % 2 == 1 then idx - 1 else idx + 1 in
    if ltb sibling_idx (length level) then at level sibling_idx else at level idx

unfoldable pub collect_siblings : Primitives → ℕ → List Bytes → ℕ → List Bytes
unfolding sibling_of
collect_siblings p zero level idx = []
collect_siblings p (suc fuel) level idx =
    let rest = collect_siblings p fuel (next_level p level) (idx / 2) in
    if ltb 1 (length level) then sibling_of level idx ∷ rest else []

unfoldable pub build_merkle_branch : Primitives → List Bytes → ℕ → MerkleBranch
unfolding collect_siblings
build_merkle_branch p hashes index = record {
  branch =
      if empty hashes || leb (length hashes) index
      then []
      else collect_siblings p (length hashes) hashes index;
  index = index % 2 ^ 32;
}

-- The levels from the leaves up.
pub record MerkleTree : Type 0 where
  pub levels : List (List Bytes)
  pub leaf_count : ℕ

unfoldable pub levels_above : Primitives → ℕ → List Bytes → List (List Bytes)
levels_above p zero level = []
levels_above p (suc fuel) level =
    let next = next_level p level in
    let rest = next ∷ levels_above p fuel next in if ltb 1 (length level) then rest else []

unfoldable pub build : Primitives → List Bytes → MerkleTree
unfolding levels_above
build p leaves = if empty leaves then record { levels = []; leaf_count = 0 } else record {
  levels = leaves ∷ levels_above p (length leaves) leaves;
  leaf_count = length leaves;
}

-- levels.back() of levels that begin with `level`.
unfoldable pub back : List Bytes → List (List Bytes) → List Bytes
back level [] = level
back level (next ∷ rest) = back next rest

unfoldable pub get_root : MerkleTree → Bytes
unfolding back
get_root t = elim t.levels [ [] ↦ zero_hash | l ∷ ls ↦ at (back l ls) 0 ]

unfoldable pub siblings_below : List Bytes → List (List Bytes) → ℕ → List Bytes
unfolding sibling_of
siblings_below level [] idx = []
siblings_below level (next ∷ rest) idx = sibling_of level idx ∷ siblings_below next rest (idx / 2)

unfoldable pub get_branch : MerkleTree → ℕ → MerkleBranch
unfolding siblings_below
get_branch t index = record {
  branch = elim t.levels [
    | [] ↦ []
    | l ∷ ls ↦ if leb (length l) index then [] else siblings_below l ls index
  ];
  index = index % 2 ^ 32;
}

unfoldable pub verify_inclusion : Primitives → MerkleTree → Bytes → ℕ → Bool
unfolding verify get_branch get_root
verify_inclusion p t tx_hash index = elim t.levels [
  | [] ↦ false
  | l ∷ ls ↦
      if leb (length l) index
      then false
      else if not (list_beq (at l index) tx_hash)
      then false
      else verify p (get_branch t index) tx_hash (get_root t)
]

abbrev pub get_depth : MerkleTree → ℕ
get_depth t = length t.levels
