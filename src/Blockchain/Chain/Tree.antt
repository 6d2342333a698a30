-- ===== src/Blockchain/Chain/Tree.antt =====
-- AcceptBlock of src/blockchain/blockchain.cpp keeps the tree of the block indices.
use dinari_blockchain_hub.Base.{
  ℕ, suc, ◌+◌, ◌%◌, ◌^◌, ◌<◌, ◌≡◌, refl, inl, inr, Bool, true, false, not, Option, none, some, [],
  ◌∷◌, ◌++◌, if◌then◌else◌, arith, Option-cases,
}
use mathlib.Core.Path.{subst}
use dinari_blockchain_hub.Base.Eq.{◌=?◌, nat_eq, list_eq, list_beq_iff, =?_cases}
use dinari_blockchain_hub.Base.Map.{Map, lookup, insert, lookup-insert}
use dinari_blockchain_hub.Util.Serialize.{Bytes}
use dinari_blockchain_hub.Crypto.Hash.{Primitives}
use dinari_blockchain_hub.Blockchain.Block.{Block, header_hash}
use dinari_blockchain_hub.Blockchain.Index.{
  BlockIndex, Indices, new_block_index, is_better_chain, height_of, Fork, no_fork, fork_at,
  null_read, find_fork, path_back, find_path,
}
use dinari_blockchain_hub.Blockchain.Index.Ancestry.{IsTree}
use dinari_blockchain_hub.Base.{◌⊎◌}
use dinari_blockchain_hub.Blockchain.Chain.{
  change_best, Blockchain, Outcome, ended, thrown, undefined, or_false, connect_block,
  set_best_chain, set_tip, reorganize, disconnect_all, connect_all, index_at,
}
use dinari_blockchain_hub.Blockchain.Chain.Acceptance.{
  accept_one, accept_after, verdict_on, add_orphan, connect_valid, link_block, set_valid, is_none,
}
use dinari_blockchain_hub.Consensus.Validation.{quick_block_check}
use dinari_blockchain_hub.Blockchain.Chain.Shape.{
  SameShape, Keeps, disconnect_all-Keeps, connect_all-Keeps, connect_block-Keeps,
  put_index-SameShape, update_main_chain-SameShape, SameShape-IsTree, or_false-Keeps,
}

Fork-cases : (f : Fork) → (f ≡ no_fork) ⊎ (f ≡ null_read) ⊎ ((h : Bytes) × (f ≡ fork_at h))
Fork-cases no_fork = inl refl
Fork-cases null_read = inr (inl refl)
Fork-cases (fork_at h) = inr (inr (h, refl))

reorganize-Keeps :
    (m : Indices) (r : Bool) (p : Primitives) (now : ℕ) (best tip : Bytes) (c : Blockchain)
    → SameShape m c.block_indices
    → Keeps m (reorganize r p now best tip c)
unfolding reorganize Keeps
reorganize-Keeps m r p now best tip c s =
    elim (Fork-cases (find_fork c.block_indices (some best) (some tip))) [
      | inl e ↦ rw (e, reorganize) s
      | inr (inl e) ↦ rw (e, reorganize) tt
      | inr (inr (f, e)) ↦
          let back =
            path_back c.block_indices (suc (height_of best c.block_indices)) f (some best) in
          rw (e, reorganize)
            (or_false-Keeps m (disconnect_all r p now back c)
              (connect_all p (find_path c.block_indices f tip))
              (disconnect_all-Keeps m r p now back c s)
              (connect_all-Keeps m p (find_path c.block_indices f tip)))
    ]

set_tip-Keeps :
    (m : Indices) (tip : Bytes) (c : Blockchain)
    → SameShape m c.block_indices
    → Keeps m (set_tip tip c)
unfolding set_tip Keeps
set_tip-Keeps m tip c s = update_main_chain-SameShape m tip c.block_indices s

if-Keeps :
    (m : Indices) (b : Bool) (r q : Outcome (Bool × Blockchain))
    → Keeps m r
    → Keeps m q
    → Keeps m (if b then r else q)
if-Keeps m true r q k l = k
if-Keeps m false r q k l = l

change_best-Keeps :
    (m : Indices) (r : Bool) (p : Primitives) (now : ℕ) (best tip : Bytes) (c : Blockchain)
    (f : Fork)
    → SameShape m c.block_indices
    → Keeps m (change_best r p now best tip c f)
unfolding change_best Keeps
change_best-Keeps m r p now best tip c no_fork s = s
change_best-Keeps m r p now best tip c null_read s = tt
change_best-Keeps m r p now best tip c (fork_at f) s =
    let changed = if f =? best then ended (true, c) else reorganize r p now best tip c in
    or_false-Keeps m changed (set_tip tip)
      (if-Keeps m (f =? best) (ended (true, c)) (reorganize r p now best tip c) s
        (reorganize-Keeps m r p now best tip c s))
      (set_tip-Keeps m tip)

set_best_chain-Keeps :
    (m : Indices) (r : Bool) (p : Primitives) (now : ℕ) (tip : Bytes) (c : Blockchain)
    → SameShape m c.block_indices
    → Keeps m (set_best_chain r p now tip c)
unfolding Keeps set_best_chain SameShape
set_best_chain-Keeps m r p now tip c s = elim (Option-cases c.best_block) [
  | inl n ↦ rw (n, set_best_chain) s
  | inr (best, e) ↦
      let fork = find_fork c.block_indices (some best) (some tip) in
      rw (e, set_best_chain)
        (if-Keeps m (tip =? best) (ended (true, c)) (change_best r p now best tip c fork) s
          (change_best-Keeps m r p now best tip c fork s))
]

set_valid-SameShape :
    (m : Indices) (h : Bytes) (v : Bool) (c : Blockchain)
    → SameShape m c.block_indices
    → SameShape m (set_valid h v c).block_indices
set_valid-SameShape m h v c s = elim (Option-cases (lookup h c.block_indices)) [
  | inl n ↦ rw (n, set_valid) s
  | inr (x, f) ↦
      rw (f, set_valid)
        (put_index-SameShape m h x (record x { is_valid = v }) c.block_indices s f (refl, refl))
]

connect_valid-Keeps :
    (m : Indices) (r : Bool) (p : Primitives) (now : ℕ) (h : Bytes) (b : Block) (v : Bool)
    (c : Blockchain)
    → SameShape m c.block_indices
    → Keeps m (connect_valid r p now h b v c)
unfolding connect_valid Keeps
connect_valid-Keeps m r p now h b v c s =
    let d = set_valid h true c in
    let better : Blockchain → Outcome (Bool × Blockchain) = λ d.
      if is_better_chain (lookup h d.block_indices) (index_at d.best_block d.block_indices)
      then set_best_chain r p now h d
      else ended (true, d) in
    if-Keeps m (not v) (ended (false, set_valid h false c))
      (or_false (connect_block p b h d) better) (set_valid-SameShape m h false c s)
      (or_false-Keeps m (connect_block p b h d) better
        (connect_block-Keeps m p b h d (set_valid-SameShape m h true c s))
        (λ e k.
          if-Keeps m
            (is_better_chain (lookup h e.block_indices) (index_at e.best_block e.block_indices))
            (set_best_chain r p now h e) (ended (true, e)) (set_best_chain-Keeps m r p now h e k)
            k))

-- The tree of one block.
pub single-IsTree :
    (h : Bytes) (x : BlockIndex) → x.prev ≡ none → x.height ≡ 0 → IsTree ((h, x) ∷ [])
unfolding lookup
single-IsTree h x first low = record {
  root_height = λ g y f e. ground (arith, f, low);
  one_root = λ g k y z f l e d. ground (arith, f, l, list_beq_iff h g, list_beq_iff h k);
  parent = λ g k y f e. absurd (ground (arith, f, e, first));
}

-- The tree with a new leaf.
pub insert-IsTree :
    (m : Indices) (h q : Bytes) (prev leaf : BlockIndex)
    → IsTree m
    → lookup h m ≡ none
    → lookup q m ≡ some prev
    → leaf.prev ≡ some q
    → leaf.height ≡ prev.height + 1
    → IsTree (insert h leaf m)
insert-IsTree m h q prev leaf t new found up higher = record {
  root_height = λ g x f e.
      ground (arith, f, e, up, lookup-insert h g leaf m, list_beq_iff h g, t.root_height g x);
  one_root = λ g k x y f l e d. ground (
    arith,
    f,
    l,
    e,
    d,
    up,
    lookup-insert h g leaf m,
    lookup-insert h k leaf m,
    t.one_root g k x y,
  );
  parent = λ g k x f e. elim (=?_cases h k) [
    | inl (b, same) ↦ (
      prev,
      ground (
        arith,
        f,
        e,
        b,
        up,
        new,
        found,
        lookup-insert h k leaf m,
        lookup-insert h g leaf m,
        list_beq_iff h g,
      ),
      ground (arith, f, b, higher, lookup-insert h k leaf m),
    )
    | inr (b, other) ↦
        let (y, at, one_up) = t.parent g k x (ground (arith, f, b, lookup-insert h k leaf m)) e in
        (y, ground (arith, at, new, lookup-insert h g leaf m, list_beq_iff h g), one_up)
  ];
}

link_block-IsTree :
    (h : Bytes) (b : Block) (prev : BlockIndex) (c : Blockchain)
    → IsTree c.block_indices
    → lookup h c.block_indices ≡ none
    → lookup b.header.prev_block_hash c.block_indices ≡ some prev
    → prev.height + 1 < 2 ^ 32
    → IsTree (link_block h b prev c).block_indices
unfolding link_block SameShape
link_block-IsTree h b prev c t new found low =
    let q = b.header.prev_block_hash in
    let leaf = record (new_block_index b ((prev.height + 1) % 2 ^ 32)) { prev = some q } in
    let linked =
      insert-IsTree c.block_indices h q prev leaf t new found refl (omega (arith, low)) in
    SameShape-IsTree (insert h leaf c.block_indices)
      (insert q (record prev { next = prev.next ++ h ∷ [] }) (insert h leaf c.block_indices))
      (put_index-SameShape (insert h leaf c.block_indices) q prev
        (record prev { next = prev.next ++ h ∷ [] }) (insert h leaf c.block_indices) (λ g. refl)
        (ground (arith, found, new, lookup-insert h q leaf c.block_indices, list_beq_iff h q))
        (refl, refl))
      linked

SameShape-refl : (m : Indices) → SameShape m m
unfolding SameShape
SameShape-refl m h = refl

-- A call that ends leaves a tree.
Trees : Outcome (Bool × Blockchain) → Type 0
Trees (ended (b, c)) = IsTree c.block_indices
Trees thrown = Unit
Trees undefined = Unit

Keeps-Trees : (m : Indices) (r : Outcome (Bool × Blockchain)) → IsTree m → Keeps m r → Trees r
unfolding Keeps Trees
Keeps-Trees m (ended (b, c)) t k = SameShape-IsTree m c.block_indices k t
Keeps-Trees m thrown t k = tt
Keeps-Trees m undefined t k = tt

if-Trees :
    (b : Bool) (r q : Outcome (Bool × Blockchain))
    → Trees r
    → (b ≡ true → Trees q)
    → Trees (if not b then r else q)
if-Trees true r q k l = l refl
if-Trees false r q k l = k

lookup-is_none : (h : Bytes) (m : Map Bytes Block) → is_none (lookup h m) ≡ true → lookup h m ≡ none
lookup-is_none h m e = elim (Option-cases (lookup h m)) [
  | inl n ↦ n
  | inr (b, f) ↦ ground (arith, e, f)
]

accept_after-Trees :
    (r : Bool) (p : Primitives) (now : ℕ) (b : Block) (c : Blockchain) (o : Option BlockIndex)
    → IsTree c.block_indices
    → lookup (header_hash p b.header) c.block_indices ≡ none
    → lookup b.header.prev_block_hash c.block_indices ≡ o
    → ((x : BlockIndex) → o ≡ some x → x.height + 1 < 2 ^ 32)
    → Trees (accept_after r p now b c o)
unfolding Trees accept_after add_orphan
accept_after-Trees r p now b c none t new found low = t
accept_after-Trees r p now b c (some prev) t new found low =
    let h = header_hash p b.header in
    let linked = link_block h b prev c in
    let tree = link_block-IsTree h b prev c t new found (low prev refl) in
    let valid = is_none (verdict_on p now b prev c) in
    Keeps-Trees linked.block_indices (connect_valid r p now h b valid linked) tree (
      connect_valid-Keeps linked.block_indices r p now h b valid linked
        (SameShape-refl linked.block_indices))

accept_one-Trees :
    (r : Bool) (p : Primitives) (now : ℕ) (b : Block) (c : Blockchain)
    → IsTree c.block_indices
    → ((h : Bytes) → lookup h c.blocks ≡ none → lookup h c.block_indices ≡ none)
    → ((h : Bytes) (x : BlockIndex) → lookup h c.block_indices ≡ some x → x.height + 1 < 2 ^ 32)
    → Trees (accept_one r p now b c)
unfolding Trees accept_one
accept_one-Trees r p now b c t stored low =
    let h = header_hash p b.header in
    let before = lookup b.header.prev_block_hash c.block_indices in
    let after = accept_after r p now b c before in
    let quick : Outcome (Bool × Blockchain) =
      if not (is_none (quick_block_check p now b)) then ended (false, c) else after in
    if-Trees r undefined (if not (is_none (lookup h c.blocks)) then ended (false, c) else quick) tt
      (λ s. if-Trees (is_none (lookup h c.blocks)) (ended (false, c)) quick t (λ n.
        if-Trees (is_none (quick_block_check p now b)) (ended (false, c)) after t (λ q.
          accept_after-Trees r p now b c before t (stored h (lookup-is_none h c.blocks n)) refl
            (low b.header.prev_block_hash))))

-- AcceptBlock up to its orphans, with whatever it connects, reorganizes or refuses on the way,
-- leaves a tree of block indices where it ends, if it finds one in which no block without data has
-- an index and no height is the greatest of 32 bits.
pub accept_one-IsTree :
    (r : Bool) (p : Primitives) (now : ℕ) (b : Block) (c d : Blockchain) (ok : Bool)
    → IsTree c.block_indices
    → ((h : Bytes) → lookup h c.blocks ≡ none → lookup h c.block_indices ≡ none)
    → ((h : Bytes) (x : BlockIndex) → lookup h c.block_indices ≡ some x → x.height + 1 < 2 ^ 32)
    → accept_one r p now b c ≡ ended (ok, d)
    → IsTree d.block_indices
unfolding Trees
accept_one-IsTree r p now b c d ok t stored low run =
    subst Trees run (accept_one-Trees r p now b c t stored low)
