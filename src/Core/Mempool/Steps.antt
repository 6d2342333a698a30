-- ===== src/Core/Mempool/Steps.antt =====
-- Every operation of the memory pool (src/core/mempool.cpp) keeps its invariant.
use dinari_blockchain_hub.Base.{
  ℕ, ◌+◌, ◌≡◌, refl, false, none, some, List, [], ◌∷◌, if◌then◌else◌, arith, All, Bool-cases, inl,
  inr,
}
use dinari_blockchain_hub.Base.Eq.{◌=?◌, nat_eq, list_eq, list_beq_iff}
use dinari_blockchain_hub.Base.Map.{
  lookup, insert, erase, lookup-insert, lookup-erase, insert-HasUniqueKeys, erase-HasUniqueKeys,
}
use dinari_blockchain_hub.Util.Serialize.{Bytes}
use dinari_blockchain_hub.Crypto.Hash.{Primitives}
use dinari_blockchain_hub.Core.OutPoint.{OutPoint, out_point_eq}
use dinari_blockchain_hub.Core.Transaction
use dinari_blockchain_hub.Core.Transaction.{Transaction, get_hash}
use dinari_blockchain_hub.Core.Mempool.{
  MemPoolEntry, MemPool, get_fee_rate, unindex_inputs, inputs_conflict, has_transaction,
  store_entry, drop_entry, remove_from_indices, new_mem_pool,
}
use dinari_blockchain_hub.Core.Mempool.Consistency.{
  claims, fee_count, size_sum, fee_sum, Rates, IsConsistent, lookup-index_inputs,
  index_inputs-HasUniqueKeys, unindex_inputs-HasUniqueKeys, lookup-unindex_inputs,
  inputs_conflict-false, fee_count-emplace, emplace-All, erase_fee-All, fee_count-erase_fee,
  fee_count-zero, size_sum-erase, size_sum-insert, fee_sum-erase, fee_sum-insert,
}

-- The empty pool is consistent.
pub new_mem_pool-IsConsistent : (p : Primitives) → IsConsistent p new_mem_pool
unfolding lookup fee_count size_sum fee_sum has_transaction
new_mem_pool-IsConsistent p = record {
  keys = tt;
  index_keys = tt;
  named = λ h e f. absurd (cc f);
  sized = λ h e f. absurd (cc f);
  indexed = λ h e o f c. absurd (cc f);
  owned = λ o h f. absurd (cc f);
  listed = λ h. refl;
  rated = tt;
  sizes = refl;
  fees = refl;
}

-- A weaker predicate holds where a stronger one does.
All-map :
    (P Q : ℕ × Bytes → Type 0) (l : List (ℕ × Bytes))
    → ((q : ℕ × Bytes) → P q → Q q)
    → All P l
    → All Q l
All-map P Q [] f a = tt
All-map P Q (q ∷ l) f a = (f q a.0, All-map P Q l f a.1)

module _ (p : Primitives) (m : MemPool) (c : IsConsistent p m) (h : Bytes) (e : MemPoolEntry) where
  Rates-insert :
      (q : ℕ × Bytes)
      → lookup h m.transactions ≡ none
      → Rates m.transactions q
      → Rates (insert h e m.transactions) q
  Rates-insert q new (d, found, rate) = (
    d,
    ground (arith, new, found, lookup-insert h q.1 e m.transactions, list_beq_iff h q.1),
    rate,
  )

  pub store_entry-IsConsistent :
      lookup h m.transactions ≡ none
      → get_hash p e.tx ≡ h
      → e.size ≡ Transaction.get_size e.tx
      → inputs_conflict m.input_index e.tx.inputs ≡ false
      → IsConsistent p (store_entry h e m)
  unfolding store_entry has_transaction
  store_entry-IsConsistent new name size free = record {
    keys = insert-HasUniqueKeys h e m.transactions c.keys;
    index_keys = index_inputs-HasUniqueKeys h e.tx.inputs m.input_index c.index_keys;
    named = λ g d f.
        ground (arith, f, name, lookup-insert h g e m.transactions, list_beq_iff h g, c.named g d);
    sized = λ g d f.
        ground (arith, f, size, lookup-insert h g e m.transactions, list_beq_iff h g, c.sized g d);
    indexed = λ g d o f s. ground (
      arith,
      f,
      s,
      lookup-insert h g e m.transactions,
      list_beq_iff h g,
      c.indexed g d o,
      lookup-index_inputs o h e.tx.inputs m.input_index,
      inputs_conflict-false o m.input_index e.tx.inputs free,
    );
    owned = λ o g f.
        let at = lookup-index_inputs o h e.tx.inputs m.input_index in
        elim (Bool-cases (claims o e.tx.inputs)) [
          | inl t ↦
              (e, ground (arith, f, at, t, lookup-insert h g e m.transactions, list_beq_iff h g), t)
          | inr t ↦
              let (d, found, s) = c.owned o g (ground (arith, f, at, t)) in
              (
                d,
                ground (arith, new, found, lookup-insert h g e m.transactions, list_beq_iff h g),
                s,
              )
        ];
    listed = λ g. ground (
      arith,
      new,
      c.listed g,
      fee_count-emplace g h (get_fee_rate e) m.fee_index,
      lookup-insert h g e m.transactions,
      list_beq_iff h g,
    );
    rated =
        emplace-All (Rates (insert h e m.transactions)) h (get_fee_rate e) m.fee_index
          (e, (ground (arith, lookup-insert h h e m.transactions, list_beq_iff h h)), refl)
          (All-map (Rates m.transactions) (Rates (insert h e m.transactions)) m.fee_index
            (λ q. Rates-insert q new) c.rated);
    sizes = omega (arith, c.sizes, size_sum-insert h e m.transactions new);
    fees = omega (arith, c.fees, fee_sum-insert h e m.transactions new);
  }

  -- Every pair of the index that has the hash of an entry has its rate.
  rates_at :
      lookup h m.transactions ≡ some e → All (λ q. q.1 ≡ h → q.0 ≡ get_fee_rate e) m.fee_index
  rates_at found =
      All-map (Rates m.transactions) (λ q. q.1 ≡ h → q.0 ≡ get_fee_rate e) m.fee_index
        (λ q (d, at, rate) same. ground (arith, at, rate, found, same)) c.rated

  fee_count-drop_entry :
      (g : Bytes)
      → lookup h m.transactions ≡ some e
      → fee_count g (drop_entry h e m).fee_index + (if h =? g then 1 else 0)
        ≡ fee_count g m.fee_index
  unfolding drop_entry remove_from_indices has_transaction
  fee_count-drop_entry g found =
      fee_count-erase_fee g h (get_fee_rate e) m.fee_index (rates_at found)
        (ground (arith, c.listed h, found))

  pub drop_entry-IsConsistent : lookup h m.transactions ≡ some e → IsConsistent p (drop_entry h e m)
  unfolding drop_entry has_transaction remove_from_indices
  drop_entry-IsConsistent found =
      let gone : (g : Bytes)
          → lookup g (erase h m.transactions) ≡ (if h =? g then none else lookup g m.transactions) =
        λ g. lookup-erase h g m.transactions c.keys in
      let free : (o : OutPoint)
          → lookup o (unindex_inputs e.tx.inputs m.input_index)
            ≡ (if claims o e.tx.inputs then none else lookup o m.input_index) =
        λ o. lookup-unindex_inputs o e.tx.inputs m.input_index c.index_keys in
      record {
        keys = erase-HasUniqueKeys h m.transactions c.keys;
        index_keys = unindex_inputs-HasUniqueKeys e.tx.inputs m.input_index c.index_keys;
        named = λ g d f. ground (arith, f, gone g, c.named g d);
        sized = λ g d f. ground (arith, f, gone g, c.sized g d);
        indexed = λ g d o f s. ground (
          arith,
          f,
          s,
          gone g,
          free o,
          c.indexed g d o,
          c.indexed h e o,
          found,
          list_beq_iff h g,
        );
        owned = λ o g f.
            let (d, at, s) = c.owned o g (ground (arith, f, free o)) in
            (d, ground (arith, at, s, f, gone g, free o, found, list_beq_iff h g), s);
        listed = λ g.
            ground
              (arith, fee_count-drop_entry g found, c.listed g, gone g, found, list_beq_iff h g);
        rated =
            All-map (λ q. Rates m.transactions q × ((h =? q.1) ≡ false))
              (Rates (erase h m.transactions)) (drop_entry h e m).fee_index
              (λ q ((d, at, rate), other). (d, ground (arith, at, other, gone q.1), rate))
              (fee_count-zero (Rates m.transactions) h (drop_entry h e m).fee_index
                (ground (arith, fee_count-drop_entry h found, c.listed h, found, list_beq_iff h h))
                (erase_fee-All (Rates m.transactions) h (get_fee_rate e) m.fee_index c.rated));
        sizes = omega (arith, c.sizes, size_sum-erase h e m.transactions found);
        fees = omega (arith, c.fees, fee_sum-erase h e m.transactions found);
      }
