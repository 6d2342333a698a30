-- ===== src/Blockchain/Index.antt =====
-- The tree of block indices: BlockIndex of src/blockchain/block.h, and the parts of
-- src/blockchain/blockchain.cpp that walk it. A BlockIndex* is the hash of its block, a null
-- pointer is `none`; every index that is made has its block. A uint256_t of chain work is a number
-- below 2 ^ 256. The walks are on fuel, with the height at which they start.
pub mod Ancestry
pub mod MainChain
pub mod Path
use dinari_blockchain_hub.Base.{
  ℕ, zero, suc, ◌+◌, ◌*◌, ◌/◌, ◌%◌, ◌^◌, ◌-◌, Bool, true, false, not, ◌&&◌, Option, none, some,
  List, [], ◌∷◌, reverse, ltb, leb, if◌then◌else◌, length,
}
use dinari_blockchain_hub.Base.Eq.{◌=?◌, nat_eq, list_eq}
use dinari_blockchain_hub.Base.Map.{Map, lookup, insert}
use dinari_blockchain_hub.Util.Serialize.{Bytes, le_value}
use dinari_blockchain_hub.Crypto.Hash.{Primitives}
use dinari_blockchain_hub.Crypto.ProofOfWork.{compact_to_target}
use dinari_blockchain_hub.Blockchain.Block.{Block}

pub record BlockIndex : Type 0 where
  pub block : Block
  pub height : ℕ
  pub chain_work : ℕ
  pub money_supply : ℕ
  pub prev : Option Bytes
  pub next : List Bytes
  pub is_valid : Bool
  pub is_main_chain : Bool

-- BlockIndex(blk, h)
unfoldable pub new_block_index : Block → ℕ → BlockIndex
new_block_index b height = record {
  block = b;
  height = height;
  chain_work = 0;
  money_supply = 0;
  prev = none;
  next = [];
  is_valid = false;
  is_main_chain = false;
}

abbrev pub Indices : Type 0
Indices = Map Bytes BlockIndex

unfoldable pub get_work : ℕ → ℕ
get_work bits =
    let target = le_value (compact_to_target bits) in
    if leb target 0 then 0 else ((2 ^ 256 - 1) / (target + 1) + 1) % 2 ^ 256

abbrev pub work_of : Option BlockIndex → ℕ
work_of none = 0
work_of (some index) = index.chain_work

-- UpdateChainWork, where `prev` is what the index's pointer is at.
unfoldable pub update_chain_work : Option BlockIndex → BlockIndex → BlockIndex
unfolding get_work
update_chain_work prev index = record index {
  chain_work = (work_of prev + get_work index.block.header.bits) % 2 ^ 256;
}

-- `p->prev` and `p->height`, where `p` is not null.
unfoldable pub prev_of : Bytes → Indices → Option Bytes
prev_of h m = elim (lookup h m) [ none ↦ none | some index ↦ index.prev ]

unfoldable pub height_of : Bytes → Indices → ℕ
height_of h m = elim (lookup h m) [ none ↦ 0 | some index ↦ index.height ]

-- The loop of FindPath, and of the blocks to disconnect in Reorganize.
unfoldable pub path_back : Indices → ℕ → Bytes → Option Bytes → List Bytes
unfolding prev_of
path_back m fuel start none = []
path_back m zero start (some h) = []
path_back m (suc fuel) start (some h) =
    let rest = path_back m fuel start (prev_of h m) in if h =? start then [] else h ∷ rest

unfoldable pub find_path : Indices → Bytes → Bytes → List Bytes
unfolding path_back height_of
find_path m start stop = reverse (path_back m (suc (height_of stop m)) start (some stop))

-- `while (b->height > height) b = b->prev`: none where the null pointer is read.
unfoldable pub lower : Indices → ℕ → ℕ → Option Bytes → Option Bytes
unfolding prev_of height_of
lower m fuel height none = none
lower m zero height (some h) = some h
lower m (suc fuel) height (some h) =
    let rest = lower m fuel height (prev_of h m) in
    if ltb height (height_of h m) then rest else some h

-- Both back until they meet.
unfoldable pub meet : Indices → ℕ → Bytes → Bytes → Option Bytes
unfolding prev_of
meet m zero a b = none
meet m (suc fuel) a b =
    let rest : Option Bytes = elim (prev_of a m) [
      | none ↦ none
      | some x ↦ elim (prev_of b m) [ none ↦ none | some y ↦ meet m fuel x y ]
    ] in
    if a =? b then some a else rest

-- The null pointer, a fork, or a read through the null pointer.
pub data Fork : Type 0 where
  no_fork : Fork
  fork_at : Bytes → Fork
  null_read : Fork

abbrev pub as_fork : Option Bytes → Fork
as_fork none = no_fork
as_fork (some h) = fork_at h

unfoldable pub find_fork : Indices → Option Bytes → Option Bytes → Fork
unfolding lower meet height_of
find_fork m none b = no_fork
find_fork m (some a) none = no_fork
find_fork m (some a) (some b) = elim (lower m (height_of a m) (height_of b m) (some a)) [
  | none ↦ null_read
  | some x ↦ elim (lower m (height_of b m) (height_of x m) (some b)) [
    | none ↦ null_read
    | some y ↦ as_fork (meet m (suc (height_of x m)) x y)
  ]
]

-- The first loop of UpdateMainChain.
unfoldable pub unmark : Indices → Indices
unmark [] = []
unmark ((h, index) ∷ m) = (h, record index { is_main_chain = false }) ∷ unmark m

-- The second, over the tip and all that it stands on.
unfoldable pub mark : ℕ → Option Bytes → Indices × Map ℕ Bytes → Indices × Map ℕ Bytes
mark fuel none s = s
mark zero (some h) s = s
mark (suc fuel) (some h) (m, heights) = elim (lookup h m) [
  | none ↦ (m, heights)
  | some index ↦
      mark fuel index.prev
        (insert h (record index { is_main_chain = true }) m, insert index.height h heights)
]

unfoldable pub update_main_chain : Bytes → Indices → Indices × Map ℕ Bytes
unfolding unmark mark height_of
update_main_chain tip m = mark (suc (height_of tip m)) (some tip) (unmark m, [])

unfoldable pub is_better_chain : Option BlockIndex → Option BlockIndex → Bool
is_better_chain none best = false
is_better_chain (some index) none = false
is_better_chain (some index) (some best) = ltb best.chain_work index.chain_work

-- `for (i = 0; i < step && current->prev; ++i) current = current->prev`
unfoldable pub step_back : Indices → ℕ → Bytes → Bytes
unfolding prev_of
step_back m zero h = h
step_back m (suc n) h = elim (prev_of h m) [ none ↦ h | some g ↦ step_back m n g ]

-- The loop of GetBlockLocator, with the number of hashes that the locator has.
unfoldable pub locator_from : Indices → ℕ → ℕ → ℕ → Bytes → List Bytes
unfolding step_back
locator_from m zero step n h = []
locator_from m (suc fuel) step n h =
    let back = step_back m step h in
    let rest = locator_from m fuel (if ltb 10 (n + 1) then step * 2 else step) (n + 1) back in
    h ∷ elim (prev_of back m) [ none ↦ [] | some g ↦ rest ]

unfoldable pub get_block_locator : Indices → Option Bytes → Option Bytes → List Bytes
unfolding locator_from height_of
get_block_locator m none none = []
get_block_locator m none (some best) = locator_from m (suc (height_of best m)) 1 0 best
get_block_locator m (some start) best = locator_from m (suc (height_of start m)) 1 0 start

unfoldable pub find_common_ancestor : Indices → Option Bytes → List Bytes → Option Bytes
find_common_ancestor m genesis [] = genesis
find_common_ancestor m genesis (h ∷ hs) =
    let rest = find_common_ancestor m genesis hs in
    elim (lookup h m) [ none ↦ rest | some index ↦ if index.is_main_chain then some h else rest ]

-- The loop of GetBlocksInRange over the heights from `height` on, `count` of them. Up to the
-- greatest uint32 it would not end.
unfoldable pub heights_from : Map ℕ Bytes → ℕ → ℕ → List Bytes
heights_from heights height zero = []
heights_from heights height (suc count) =
    let rest = heights_from heights (height + 1) count in
    elim (lookup height heights) [ none ↦ rest | some h ↦ h ∷ rest ]

unfoldable pub get_blocks_in_range : Map ℕ Bytes → ℕ → ℕ → List Bytes
unfolding heights_from
get_blocks_in_range heights start_height end_height =
    heights_from heights start_height (end_height + 1 - start_height)
