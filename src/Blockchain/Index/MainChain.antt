-- ===== src/Blockchain/Index/MainChain.antt =====
-- What UpdateMainChain of src/blockchain/blockchain.cpp marks and indexes.
use dinari_blockchain_hub.Base.{
  ℕ, zero, suc, ◌<◌, ◌≡◌, ◌≢◌, refl, ◌↔◌, ◌⊎◌, inl, inr, Bool, true, false, ◌||◌, Option, none,
  some, [], ◌∷◌, if◌then◌else◌, arith, ◌==◌, ==_iff, Option-cases,
}
use dinari_blockchain_hub.Base.Eq.{◌=?◌, nat_eq, list_eq, list_beq_iff}
use dinari_blockchain_hub.Base.Map.{Map, lookup, insert, lookup-insert}
use dinari_blockchain_hub.Util.Serialize.{Bytes}
use dinari_blockchain_hub.Blockchain.Index.{
  BlockIndex, Indices, prev_of, height_of, unmark, mark, update_main_chain,
}
use dinari_blockchain_hub.Blockchain.Index.Ancestry.{
  IsTree, Ancestor, above, Known, prev_of-Known, Ancestor-height_of, Ancestor-Known,
  Ancestor-prev_of, Ancestor-root, equal-Ancestor,
}

-- Whether the walk comes by the block.
unfoldable pub on_path : ℕ → Option Bytes → Indices → Bytes → Bool
on_path fuel none m g = false
on_path zero (some h) m g = false
on_path (suc fuel) (some h) m g = elim (lookup h m) [
  | none ↦ false
  | some x ↦ h =? g || on_path fuel x.prev m g
]

-- The last block of a height that the walk comes by.
unfoldable at_height : ℕ → Option Bytes → Indices → ℕ → Option Bytes
at_height fuel none m n = none
at_height zero (some h) m n = none
at_height (suc fuel) (some h) m n = elim (lookup h m) [
  | none ↦ none
  | some x ↦ elim (at_height fuel x.prev m n) [
    | some g ↦ some g
    | none ↦ if x.height == n then some h else none
  ]
]

abbrev pub marked : BlockIndex → BlockIndex
marked x = record x { is_main_chain = true }

abbrev pub set_flag : Bool → Option BlockIndex → Option BlockIndex
set_flag b none = none
set_flag b (some x) = some (if b then marked x else x)

on_path-insert :
    (fuel : ℕ) (p : Option Bytes) (k : Bytes) (x : BlockIndex) (m : Indices) (g : Bytes)
    → lookup k m ≡ some x
    → on_path fuel p (insert k (marked x) m) g ≡ on_path fuel p m g
unfolding on_path
on_path-insert fuel none k x m g f = refl
on_path-insert zero (some h) k x m g f = refl
on_path-insert (suc fuel) (some h) k x m g f = elim (Option-cases (lookup h m)) [
  | inl n ↦ ground (arith, n, f, lookup-insert k h (marked x) m, list_beq_iff k h)
  | inr (y, at) ↦ ground (
    arith,
    at,
    f,
    lookup-insert k h (marked x) m,
    list_beq_iff k h,
    on_path-insert fuel y.prev k x m g f,
  )
]

at_height-insert :
    (fuel : ℕ) (p : Option Bytes) (k : Bytes) (x : BlockIndex) (m : Indices) (n : ℕ)
    → lookup k m ≡ some x
    → at_height fuel p (insert k (marked x) m) n ≡ at_height fuel p m n
unfolding at_height
at_height-insert fuel none k x m n f = refl
at_height-insert zero (some h) k x m n f = refl
at_height-insert (suc fuel) (some h) k x m n f = elim (Option-cases (lookup h m)) [
  | inl e ↦ ground (arith, e, f, lookup-insert k h (marked x) m, list_beq_iff k h)
  | inr (y, at) ↦ ground (
    arith,
    at,
    f,
    lookup-insert k h (marked x) m,
    list_beq_iff k h,
    at_height-insert fuel y.prev k x m n f,
  )
]

pub lookup-mark :
    (fuel : ℕ) (p : Option Bytes) (m : Indices) (heights : Map ℕ Bytes) (g : Bytes)
    → lookup g (mark fuel p (m, heights)).0 ≡ set_flag (on_path fuel p m g) (lookup g m)
unfolding mark on_path
lookup-mark fuel none m heights g = elim (Option-cases (lookup g m)) [
  | inl n ↦ ground (arith, n)
  | inr (x, f) ↦ ground (arith, f)
]
lookup-mark zero (some h) m heights g = elim (Option-cases (lookup g m)) [
  | inl n ↦ ground (arith, n)
  | inr (x, f) ↦ ground (arith, f)
]
lookup-mark (suc fuel) (some h) m heights g = elim (Option-cases (lookup h m)) [
  | inl n ↦ elim (Option-cases (lookup g m)) [
    | inl e ↦ ground (arith, n, e)
    | inr (x, f) ↦ ground (arith, n, f)
  ]
  | inr (x, f) ↦
      let rest = lookup-mark fuel x.prev (insert h (marked x) m) (insert x.height h heights) g in
      let same = on_path-insert fuel x.prev h x m g f in
      let at = lookup-insert h g (marked x) m in
      elim (Option-cases (lookup g m)) [
        | inl e ↦ ground (arith, rest, same, f, e, at, list_beq_iff h g)
        | inr (y, e) ↦ ground (arith, rest, same, f, e, at, list_beq_iff h g)
      ]
]

lookup-mark_heights :
    (fuel : ℕ) (p : Option Bytes) (m : Indices) (heights : Map ℕ Bytes) (n : ℕ)
    → lookup n (mark fuel p (m, heights)).1
      ≡ elim (at_height fuel p m n) [ some g ↦ some g | none ↦ lookup n heights ]
unfolding mark at_height
lookup-mark_heights fuel none m heights n = refl
lookup-mark_heights zero (some h) m heights n = refl
lookup-mark_heights (suc fuel) (some h) m heights n = elim (Option-cases (lookup h m)) [
  | inl e ↦ ground (arith, e)
  | inr (x, f) ↦
      let rest =
        lookup-mark_heights fuel x.prev (insert h (marked x) m) (insert x.height h heights) n in
      let same = at_height-insert fuel x.prev h x m n f in
      let at = lookup-insert x.height n h heights in
      ground (arith, rest, same, f, at, ==_iff x.height n)
]

empty_lookup : (n : ℕ) → lookup {V = Bytes} n [] ≡ none
unfolding lookup
empty_lookup n = refl

height_of-some :
    (m : Indices) (h : Bytes) (x : BlockIndex) → lookup h m ≡ some x → height_of h m ≡ x.height
unfolding height_of
height_of-some m h x f = ground (arith, f)

module _ (m : Indices) (t : IsTree m) where
  -- Enough fuel takes the walk to all ancestors.
  on_path_iff :
      (fuel : ℕ) (h g : Bytes)
      → Known m h
      → height_of h m < fuel
      → (on_path fuel (some h) m g ≡ true) ↔ Ancestor m g h
  unfolding on_path prev_of
  on_path_iff zero h g k le = absurd (omega arith)
  on_path_iff (suc fuel) h g (x, f) le = elim (Option-cases x.prev) [
    | inl n ↦
        let alone = Ancestor-root m t g h (ground (arith, f, n)) in
        ground (arith, f, n, list_beq_iff h g, alone, equal-Ancestor m t g h)
    | inr (j, e) ↦
        let p : prev_of h m ≡ some j = ground (arith, f, e) in
        let (known, up) = prev_of-Known m t j h (x, f) p in
        let rest = on_path_iff fuel j g known (omega (arith, le, up)) in
        let down : Ancestor m g h → (g ≡ h) ⊎ Ancestor m g j = Ancestor-prev_of m t g h j p in
        let one_up : Ancestor m g j → Ancestor m g h = above p in
        ground (arith, f, e, list_beq_iff h g, rest, down, one_up, equal-Ancestor m t g h)
  ]

  at_height_iff :
      (fuel : ℕ) (h g : Bytes) (n : ℕ)
      → Known m h
      → height_of h m < fuel
      → (at_height fuel (some h) m n ≡ some g) ↔ Ancestor m g h × (height_of g m ≡ n)
  unfolding at_height prev_of
  at_height_iff zero h g n k le = absurd (omega arith)
  at_height_iff (suc fuel) h g n (x, f) le =
      let at : height_of h m ≡ x.height = height_of-some m h x f in
      elim (Option-cases x.prev) [
        | inl e ↦
            let alone = Ancestor-root m t g h (ground (arith, f, e)) in
            ground (arith, f, e, at, alone, equal-Ancestor m t g h, ==_iff x.height n)
        | inr (j, e) ↦
            let p : prev_of h m ≡ some j = ground (arith, f, e) in
            let (known, up) = prev_of-Known m t j h (x, f) p in
            let rest = at_height_iff fuel j g n known (omega (arith, le, up)) in
            let down : Ancestor m g h → (g ≡ h) ⊎ Ancestor m g j = Ancestor-prev_of m t g h j p in
            let one_up : Ancestor m g j → Ancestor m g h = above p in
            elim (Option-cases (at_height fuel (some j) m n)) [
              | inl q ↦ ground (
                arith,
                f,
                e,
                at,
                q,
                rest,
                down,
                one_up,
                equal-Ancestor m t g h,
                ==_iff x.height n,
              )
              | inr (k, q) ↦
                  let (a, same) = (at_height_iff fuel j k n known (omega (arith, le, up))).0 q in
                  let not_here : height_of h m ≢ n =
                    λ here. ground (arith, up, same, here, Ancestor-height_of m t k j known a) in
                  ground (arith, f, e, at, q, rest, down, one_up, not_here)
            ]
      ]

pub lookup-unmark :
    (m : Indices) (g : Bytes)
    → lookup g (unmark m)
      ≡ elim (lookup g m) [ none ↦ none | some x ↦ some (record x { is_main_chain = false }) ]
unfolding unmark lookup
lookup-unmark [] g = refl
lookup-unmark ((h, x) ∷ m) g = ground (arith, lookup-unmark m g)

on_path-unmark :
    (fuel : ℕ) (p : Option Bytes) (m : Indices) (g : Bytes)
    → on_path fuel p (unmark m) g ≡ on_path fuel p m g
unfolding on_path
on_path-unmark fuel none m g = refl
on_path-unmark zero (some h) m g = refl
on_path-unmark (suc fuel) (some h) m g = elim (Option-cases (lookup h m)) [
  | inl n ↦ ground (arith, n, lookup-unmark m h)
  | inr (x, f) ↦ ground (arith, f, lookup-unmark m h, on_path-unmark fuel x.prev m g)
]

at_height-unmark :
    (fuel : ℕ) (p : Option Bytes) (m : Indices) (n : ℕ)
    → at_height fuel p (unmark m) n ≡ at_height fuel p m n
unfolding at_height
at_height-unmark fuel none m n = refl
at_height-unmark zero (some h) m n = refl
at_height-unmark (suc fuel) (some h) m n = elim (Option-cases (lookup h m)) [
  | inl e ↦ ground (arith, e, lookup-unmark m h)
  | inr (x, f) ↦ ground (arith, f, lookup-unmark m h, at_height-unmark fuel x.prev m n)
]

-- The flag of a block after the marking.
abbrev pub is_marked : Option BlockIndex → Bool
is_marked none = false
is_marked (some x) = x.is_main_chain

is_marked-update_main_chain :
    (m : Indices) (tip h : Bytes)
    → IsTree m
    → Known m tip
    → (is_marked (lookup h (update_main_chain tip m).0) ≡ true) ↔ Ancestor m h tip
unfolding update_main_chain
is_marked-update_main_chain m tip h t k =
    let fuel = suc (height_of tip m) in
    let at = lookup-mark fuel (some tip) (unmark m) [] h in
    let iff = on_path_iff m t fuel tip h k (omega arith) in
    let same = on_path-unmark fuel (some tip) m h in
    elim (Option-cases (lookup h m)) [
      | inl n ↦
          let not_above : ¬ Ancestor m h tip =
            λ a. let (x, f) = Ancestor-Known m t h tip k a in cc (n, f) in
          ground (arith, at, lookup-unmark m h, n, not_above)
      | inr (x, f) ↦ ground (arith, at, iff, same, lookup-unmark m h, f)
    ]

lookup-update_main_chain :
    (m : Indices) (tip h : Bytes) (n : ℕ)
    → IsTree m
    → Known m tip
    → (lookup n (update_main_chain tip m).1 ≡ some h) ↔ (Ancestor m h tip × (height_of h m ≡ n))
unfolding update_main_chain
lookup-update_main_chain m tip h n t k =
    let fuel = suc (height_of tip m) in
    let at = lookup-mark_heights fuel (some tip) (unmark m) [] n in
    let iff = at_height_iff m t fuel tip h n k (omega arith) in
    let same = at_height-unmark fuel (some tip) m n in
    elim (Option-cases (at_height fuel (some tip) m n)) [
      | inl e ↦ ground (arith, at, iff, same, e, empty_lookup n)
      | inr (g, e) ↦ ground (arith, at, iff, same, e)
    ]

-- After UpdateMainChain for a tip, in a tree of block indices, a block is marked exactly if the
-- tip stands on it, and the index by height has exactly those blocks, each at its height.
pub update_main_chain_iff :
    (m : Indices) (tip h : Bytes) (n : ℕ)
    → IsTree m
    → Known m tip
    → ((is_marked (lookup h (update_main_chain tip m).0) ≡ true) ↔ Ancestor m h tip)
      × ((lookup n (update_main_chain tip m).1 ≡ some h) ↔ (Ancestor m h tip × (height_of h m ≡ n)))
update_main_chain_iff m tip h n t k =
    (is_marked-update_main_chain m tip h t k, lookup-update_main_chain m tip h n t k)
