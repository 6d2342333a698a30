-- ===== src/Blockchain/Chain/Shape.antt =====
-- The operations of src/blockchain/blockchain.cpp on a chain keep the tree of its block indices.
use dinari_blockchain_hub.Base.{
  ℕ, suc, ◌≡◌, refl, sym, ◌∙◌, ap, ◌-◌, inl, inr, Bool, true, false, Option, none, some, List, [],
  ◌∷◌, if◌then◌else◌, arith, Option-cases, drop, ltb,
}
use dinari_blockchain_hub.Base.Eq.{nat_eq, list_eq, list_beq_iff}
use dinari_blockchain_hub.Base.Map.{lookup, insert, lookup-insert}
use dinari_blockchain_hub.Util.Serialize.{Bytes}
use dinari_blockchain_hub.Crypto.Hash.{Primitives}
use dinari_blockchain_hub.Core.Amount.{safe_add}
use dinari_blockchain_hub.Core.Utxo.{UtxoSet}
use dinari_blockchain_hub.Core.Mempool.{MemPool}
use dinari_blockchain_hub.Blockchain.Block.{Block, get_total_fees}
use dinari_blockchain_hub.Blockchain.Index.{
  BlockIndex, Indices, update_chain_work, update_main_chain, unmark, height_of,
}
use dinari_blockchain_hub.Blockchain.Index.Ancestry.{IsTree}
use dinari_blockchain_hub.Blockchain.Index.MainChain.{lookup-mark, lookup-unmark}
use dinari_blockchain_hub.Blockchain.Chain.{
  disconnected, Blockchain, Outcome, ended, thrown, undefined, or_false, put_index, connect_block,
  connect_coins, disconnect_block, disconnect_all, connect_all, add_back, revert_utxos,
  update_utxos, coinbase_value, supply_of, index_at,
}

-- What the tree reads of an index.
abbrev shape : Option BlockIndex → Option (Option Bytes × ℕ)
shape none = none
shape (some x) = some (x.prev, x.height)

unfoldable pub SameShape : Indices → Indices → Type 0
SameShape m n = (h : Bytes) → shape (lookup h m) ≡ shape (lookup h n)

pub put_index-SameShape :
    (m : Indices) (h : Bytes) (x y : BlockIndex) (n : Indices)
    → SameShape m n
    → lookup h n ≡ some x
    → (y.prev ≡ x.prev) × (y.height ≡ x.height)
    → SameShape m (insert h y n)
unfolding SameShape
put_index-SameShape m h x y n s f e g =
    ground (arith, s g, f, e, lookup-insert h g y n, list_beq_iff h g)

pub update_main_chain-SameShape :
    (m : Indices) (tip : Bytes) (n : Indices)
    → SameShape m n
    → SameShape m (update_main_chain tip n).0
unfolding SameShape update_main_chain
update_main_chain-SameShape m tip n s h =
    let at = lookup-mark (suc (height_of tip n)) (some tip) (unmark n) [] h in
    elim (Option-cases (lookup h n)) [
      | inl e ↦ ground (arith, s h, at, e, lookup-unmark n h)
      | inr (x, e) ↦ ground (arith, s h, at, e, lookup-unmark n h)
    ]

-- Two options of one shape are found alike.
shape_found :
    (o : Option BlockIndex) (x : BlockIndex)
    → shape o ≡ shape (some x)
    → (y : BlockIndex) × (o ≡ some y) × (y.prev ≡ x.prev) × (y.height ≡ x.height)
shape_found none x e = absurd (cc e)
shape_found (some y) x e = (y, refl, ground (arith, e), ground (arith, e))

found_in :
    (m n : Indices) (h : Bytes) (x : BlockIndex)
    → SameShape m n
    → lookup h n ≡ some x
    → (y : BlockIndex) × (lookup h m ≡ some y) × (y.prev ≡ x.prev) × (y.height ≡ x.height)
unfolding SameShape
found_in m n h x s f = shape_found (lookup h m) x (s h ∙ ap shape f)

SameShape-sym : (m n : Indices) → SameShape m n → SameShape n m
unfolding SameShape
SameShape-sym m n s h = sym (s h)

pub SameShape-IsTree : (m n : Indices) → SameShape m n → IsTree m → IsTree n
SameShape-IsTree m n s t = record {
  root_height = λ h x f e.
      let (y, at, p, q) = found_in m n h x s f in omega (arith, t.root_height h y at (p ∙ e), q);
  one_root = λ g h x y f k e d.
      let (v, at_v, p, q) = found_in m n g x s f in
      let (w, at_w, i, j) = found_in m n h y s k in t.one_root g h v w at_v at_w (p ∙ e) (i ∙ d);
  parent = λ g h x f e.
      let (v, at_v, p, q) = found_in m n h x s f in
      let (w, at_w, up) = t.parent g h v at_v (p ∙ e) in
      let (y, at_y, i, j) = found_in n m g w (SameShape-sym m n s) at_w in
      (y, at_y, omega (arith, up, q, j));
}

-- A call that ends leaves indices of that shape.
unfoldable pub Keeps : Indices → Outcome (Bool × Blockchain) → Type 0
Keeps m (ended (b, c)) = SameShape m c.block_indices
Keeps m thrown = Unit
Keeps m undefined = Unit

pub or_false-Keeps :
    (m : Indices) (r : Outcome (Bool × Blockchain)) (f : Blockchain → Outcome (Bool × Blockchain))
    → Keeps m r
    → ((c : Blockchain) → SameShape m c.block_indices → Keeps m (f c))
    → Keeps m (or_false r f)
unfolding Keeps
or_false-Keeps m (ended (true, c)) f k g = g c k
or_false-Keeps m (ended (false, c)) f k g = k
or_false-Keeps m thrown f k g = tt
or_false-Keeps m undefined f k g = tt

connect_coins-Keeps :
    (m : Indices) (p : Primitives) (b : Block) (r : Outcome (Bool × UtxoSet)) (c : Blockchain)
    → SameShape m c.block_indices
    → Keeps m (connect_coins p b r c)
unfolding Keeps connect_coins
connect_coins-Keeps m p b (ended (true, u)) c s = s
connect_coins-Keeps m p b (ended (false, u)) c s = s
connect_coins-Keeps m p b thrown c s = tt
connect_coins-Keeps m p b undefined c s = tt

pub connect_block-Keeps :
    (m : Indices) (p : Primitives) (b : Block) (h : Bytes) (c : Blockchain)
    → SameShape m c.block_indices
    → Keeps m (connect_block p b h c)
unfolding connect_block update_chain_work Keeps
connect_block-Keeps m p b h c s = elim (Option-cases (lookup h c.block_indices)) [
  | inl n ↦ rw (n, connect_block) tt
  | inr (x, f) ↦
      let prev = index_at x.prev c.block_indices in
      let fees = get_total_fees b c.utxos in
      let worked = update_chain_work prev x in
      elim (Option-cases (
        safe_add (supply_of prev)
          (if ltb fees (coinbase_value b) then coinbase_value b - fees else 0))) [
            | inl n ↦
                rw (f, n, connect_block)
                  (put_index-SameShape m h x worked c.block_indices s f (refl, refl))
            | inr (supply, e) ↦
                rw (f, e, connect_block)
                  (connect_coins-Keeps m p b (update_utxos p b x.height c.utxos)
                    (put_index h (record worked { money_supply = supply }) c)
                    (put_index-SameShape m h x (record worked { money_supply = supply })
                      c.block_indices s f (refl, refl)))
          ]
]

disconnected-Keeps :
    (m : Indices) (h : Bytes) (x : BlockIndex) (c : Blockchain) (r : Outcome MemPool)
    → SameShape m c.block_indices
    → lookup h c.block_indices ≡ some x
    → Keeps m (disconnected h x c r)
unfolding disconnected Keeps
disconnected-Keeps m h x c (ended l) s f =
    put_index-SameShape m h x (record x { is_main_chain = false }) c.block_indices s f (refl, refl)
disconnected-Keeps m h x c thrown s f = tt
disconnected-Keeps m h x c undefined s f = tt

disconnect_block-Keeps :
    (m : Indices) (r : Bool) (p : Primitives) (now : ℕ) (h : Bytes) (c : Blockchain)
    → SameShape m c.block_indices
    → Keeps m (disconnect_block r p now h c)
unfolding disconnect_block Keeps
disconnect_block-Keeps m r p now h c s = elim (Option-cases (lookup h c.block_indices)) [
  | inl n ↦ rw (n, disconnect_block) s
  | inr (x, f) ↦
      rw (f, disconnect_block)
        (disconnected-Keeps m h x (record c { utxos = revert_utxos p x.block.transactions c.utxos })
          (add_back r p now (drop 1 x.block.transactions)
            (revert_utxos p x.block.transactions c.utxos) x.height c.mempool)
          s f)
]

pub disconnect_all-Keeps :
    (m : Indices) (r : Bool) (p : Primitives) (now : ℕ) (hs : List Bytes) (c : Blockchain)
    → SameShape m c.block_indices
    → Keeps m (disconnect_all r p now hs c)
unfolding disconnect_all Keeps
disconnect_all-Keeps m r p now [] c s = s
disconnect_all-Keeps m r p now (h ∷ hs) c s =
    or_false-Keeps m (disconnect_block r p now h c) (disconnect_all r p now hs)
      (disconnect_block-Keeps m r p now h c s) (disconnect_all-Keeps m r p now hs)

pub connect_all-Keeps :
    (m : Indices) (p : Primitives) (hs : List Bytes) (c : Blockchain)
    → SameShape m c.block_indices
    → Keeps m (connect_all p hs c)
unfolding connect_all Keeps
connect_all-Keeps m p [] c s = s
connect_all-Keeps m p (h ∷ hs) c s = elim (Option-cases (lookup h c.block_indices)) [
  | inl n ↦ rw (n, connect_all) tt
  | inr (x, f) ↦
      rw (f, connect_all)
        (or_false-Keeps m (connect_block p x.block h c) (connect_all p hs)
          (connect_block-Keeps m p x.block h c s) (connect_all-Keeps m p hs))
]
