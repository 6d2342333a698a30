-- ===== src/Core/Transaction/Codec.antt =====
-- The wire format of transactions (src/core/transaction.cpp): what SerializeImpl writes,
-- DeserializeImpl reads.
use dinari_blockchain_hub.Base.{
  ℕ, ◌^◌, ◌<◌, ◌≡◌, refl, sym, ◌∙◌, List, [], ◌∷◌, ◌++◌, append_assoc, append-nil, arith, length,
  All, false,
}
use dinari_blockchain_hub.Util.Serialize.{
  Bytes, Serializer, le_bytes, write_uint32, write_uint64, write_bytes, write_hash256, read_uint32,
  read_uint64, read_compact_size, read_bytes, read_hash256, Deserializer, Outcome, advance, ok,
}
use dinari_blockchain_hub.Util.Serialize.Laws.{
  Reads, Holds, varint_bytes, wire_laws, >>=-Reads, map-Reads, pure-Reads, read_uint32-Reads,
  read_uint64-Reads, read_compact_size-Reads, read_bytes-Reads, read_hash256-Reads,
}
use dinari_blockchain_hub.Core.OutPoint
use dinari_blockchain_hub.Core.OutPoint.{OutPoint}
use dinari_blockchain_hub.Core.TxOut
use dinari_blockchain_hub.Core.TxOut.{TxOut}
use dinari_blockchain_hub.Core.TxIn
use dinari_blockchain_hub.Core.TxIn.{TxIn}
use dinari_blockchain_hub.Core.Transaction.{
  Transaction, write_inputs, write_outputs, serialize, read_inputs, read_outputs, deserialize,
}

-- The fields hold what their C++ types can.
pub record OutPointFits (o : OutPoint) : Type 0 where
  pub hash_size : length o.tx_hash ≡ 32
  pub index_range : o.index < 2 ^ 32

pub record TxOutFits (o : TxOut) : Type 0 where
  pub value_range : o.value < 2 ^ 64
  pub script_size : length o.script_pub_key < 2 ^ 64

pub record TxInFits (i : TxIn) : Type 0 where
  pub prev_out_fits : OutPointFits i.prev_out
  pub script_size : length i.script_sig < 2 ^ 64
  pub sequence_range : i.sequence < 2 ^ 32

pub record TransactionFits (tx : Transaction) : Type 0 where
  pub version_range : tx.version < 2 ^ 32
  pub lock_time_range : tx.lock_time < 2 ^ 32
  pub input_count : length tx.inputs < 2 ^ 64
  pub output_count : length tx.outputs < 2 ^ 64
  pub inputs_fit : All TxInFits tx.inputs
  pub outputs_fit : All TxOutFits tx.outputs

-- The bytes of each part on its own.
out_point_bytes : OutPoint → Bytes
out_point_bytes o = o.tx_hash ++ le_bytes 4 o.index

tx_out_bytes : TxOut → Bytes
tx_out_bytes o = le_bytes 8 o.value ++ (varint_bytes (length o.script_pub_key) ++ o.script_pub_key)

tx_in_bytes : TxIn → Bytes
tx_in_bytes i =
    out_point_bytes i.prev_out
    ++ (varint_bytes (length i.script_sig) ++ (i.script_sig ++ le_bytes 4 i.sequence))

inputs_bytes : List TxIn → Bytes
inputs_bytes [] = []
inputs_bytes (i ∷ is) = tx_in_bytes i ++ inputs_bytes is

outputs_bytes : List TxOut → Bytes
outputs_bytes [] = []
outputs_bytes (o ∷ os) = tx_out_bytes o ++ outputs_bytes os

out_point-append : (o : OutPoint) (s : Serializer) → OutPoint.serialize o s ≡ s ++ out_point_bytes o
unfolding OutPoint.serialize write_hash256 write_uint32 out_point_bytes
out_point-append o s = simp wire_laws

tx_out-append : (o : TxOut) (s : Serializer) → TxOut.serialize o s ≡ s ++ tx_out_bytes o
unfolding TxOut.serialize write_uint64 write_bytes tx_out_bytes
tx_out-append o s = simp wire_laws

tx_in-append : (i : TxIn) (s : Serializer) → TxIn.serialize i s ≡ s ++ tx_in_bytes i
unfolding TxIn.serialize write_uint32 write_bytes tx_in_bytes
tx_in-append i s = simp (out_point-append, wire_laws)

inputs-append : (is : List TxIn) (s : Serializer) → write_inputs is s ≡ s ++ inputs_bytes is
unfolding write_inputs inputs_bytes
inputs-append [] s = simp append-nil
inputs-append (i ∷ is) s = simp (inputs-append is, tx_in-append, append_assoc)

outputs-append : (os : List TxOut) (s : Serializer) → write_outputs os s ≡ s ++ outputs_bytes os
unfolding write_outputs outputs_bytes
outputs-append [] s = simp append-nil
outputs-append (o ∷ os) s = simp (outputs-append os, tx_out-append, append_assoc)

-- All of a transaction, bracketed as it is read.
pub transaction_bytes : Transaction → Bytes
transaction_bytes tx =
    le_bytes 4 tx.version
    ++ (varint_bytes (length tx.inputs)
        ++ (inputs_bytes tx.inputs
            ++ (varint_bytes (length tx.outputs)
                ++ (outputs_bytes tx.outputs ++ le_bytes 4 tx.lock_time))))

pub serialize-append : (tx : Transaction) (s : Serializer) → serialize tx s ≡ s ++ serialize tx []
unfolding serialize write_uint32
serialize-append tx s = simp (inputs-append, outputs-append, wire_laws)

pub serialize-eq-bytes : (tx : Transaction) → serialize tx [] ≡ transaction_bytes tx
unfolding serialize write_uint32 transaction_bytes
serialize-eq-bytes tx = simp (inputs-append, outputs-append, wire_laws)

out_point-Reads : (o : OutPoint) → OutPointFits o → Reads OutPoint.deserialize (out_point_bytes o) o
unfolding OutPoint.deserialize out_point_bytes
out_point-Reads o f =
    >>=-Reads read_hash256 _ o.tx_hash (le_bytes 4 o.index) o.tx_hash o
      (read_hash256-Reads o.tx_hash f.hash_size)
      (map-Reads read_uint32 _ (le_bytes 4 o.index) o.index
        (read_uint32-Reads o.index f.index_range))

tx_out-Reads : (o : TxOut) → TxOutFits o → Reads TxOut.deserialize (tx_out_bytes o) o
unfolding TxOut.deserialize tx_out_bytes
tx_out-Reads o f =
    let script = o.script_pub_key in
    let n = length o.script_pub_key in
    >>=-Reads read_uint64 _ (le_bytes 8 o.value) (varint_bytes n ++ script) o.value o
      (read_uint64-Reads o.value f.value_range)
      (>>=-Reads read_compact_size _ (varint_bytes n) script n o
        (read_compact_size-Reads n f.script_size)
        (map-Reads (read_bytes n) _ script script (read_bytes-Reads n script refl)))

tx_in-Reads : (i : TxIn) → TxInFits i → Reads TxIn.deserialize (tx_in_bytes i) i
unfolding TxIn.deserialize tx_in_bytes
tx_in-Reads i f =
    let script = i.script_sig in
    let n = length i.script_sig in
    let last = le_bytes 4 i.sequence in
    >>=-Reads OutPoint.deserialize _ (out_point_bytes i.prev_out)
      (varint_bytes n ++ (script ++ last)) i.prev_out i (out_point-Reads i.prev_out f.prev_out_fits)
      (>>=-Reads read_compact_size _ (varint_bytes n) (script ++ last) n i
        (read_compact_size-Reads n f.script_size)
        (>>=-Reads (read_bytes n) _ script last script i (read_bytes-Reads n script refl) (
          map-Reads read_uint32 _ last i.sequence (read_uint32-Reads i.sequence f.sequence_range))))

inputs-Reads :
    (is : List TxIn) → All TxInFits is → Reads (read_inputs (length is)) (inputs_bytes is) is
unfolding read_inputs inputs_bytes
inputs-Reads [] f = pure-Reads []
inputs-Reads (i ∷ is) f =
    >>=-Reads TxIn.deserialize _ (tx_in_bytes i) (inputs_bytes is) i (i ∷ is) (tx_in-Reads i f.0)
      (map-Reads (read_inputs (length is)) _ (inputs_bytes is) is (inputs-Reads is f.1))

outputs-Reads :
    (os : List TxOut) → All TxOutFits os → Reads (read_outputs (length os)) (outputs_bytes os) os
unfolding read_outputs outputs_bytes
outputs-Reads [] f = pure-Reads []
outputs-Reads (o ∷ os) f =
    >>=-Reads TxOut.deserialize _ (tx_out_bytes o) (outputs_bytes os) o (o ∷ os)
      (tx_out-Reads o f.0)
      (map-Reads (read_outputs (length os)) _ (outputs_bytes os) os (outputs-Reads os f.1))

pub bytes-Reads :
    (old tx : Transaction)
    → TransactionFits tx
    → Reads
        (deserialize old)
        (transaction_bytes tx)
        (record tx { cached_hash = old.cached_hash; hash_cached = false })
unfolding deserialize transaction_bytes
bytes-Reads old tx f =
    let n = length tx.inputs in
    let m = length tx.outputs in
    let last = le_bytes 4 tx.lock_time in
    let os = outputs_bytes tx.outputs ++ last in
    let rest = varint_bytes m ++ os in
    let is = inputs_bytes tx.inputs ++ rest in
    let result : Transaction = record tx { cached_hash = old.cached_hash; hash_cached = false } in
    >>=-Reads read_uint32 _ (le_bytes 4 tx.version) (varint_bytes n ++ is) tx.version result
      (read_uint32-Reads tx.version f.version_range)
      (>>=-Reads read_compact_size _ (varint_bytes n) is n result
        (read_compact_size-Reads n f.input_count)
        (>>=-Reads (read_inputs n) _ (inputs_bytes tx.inputs) rest tx.inputs result
          (inputs-Reads tx.inputs f.inputs_fit)
          (>>=-Reads read_compact_size _ (varint_bytes m) os m result
            (read_compact_size-Reads m f.output_count)
            (>>=-Reads (read_outputs m) _ (outputs_bytes tx.outputs) last tx.outputs result
              (outputs-Reads tx.outputs f.outputs_fit)
              (map-Reads read_uint32 _ last tx.lock_time
                (read_uint32-Reads tx.lock_time f.lock_time_range))))))

-- For a transaction whose fields hold what their C++ types can, reading back what SerializeImpl
-- wrote gives every field again, at any place of the data and whatever follows, and moves the
-- position behind it; the cached hash is that of the object read into, marked stale.
pub deserialize-serialize :
    (old tx : Transaction) (d : Deserializer) (rest : Bytes)
    → TransactionFits tx
    → Holds d (serialize tx [] ++ rest)
    → deserialize old d
      ≡ ok (
        record tx { cached_hash = old.cached_hash; hash_cached = false },
        advance (length (serialize tx [])) d,
      )
deserialize-serialize old tx d rest f h =
    rw (serialize-eq-bytes tx) (bytes-Reads old tx f d rest (rw (serialize-eq-bytes tx) at h))

-- The fields that the wire format carries.
pub record SameWire (tx tx' : Transaction) : Type 0 where
  pub same_version : tx.version ≡ tx'.version
  pub same_inputs : tx.inputs ≡ tx'.inputs
  pub same_outputs : tx.outputs ≡ tx'.outputs
  pub same_lock_time : tx.lock_time ≡ tx'.lock_time

-- Two transactions whose fields hold what their C++ types can, of fewer than 2^64 bytes and with
-- the same bytes, agree in every field on the wire.
pub serialize_injective :
    (tx tx' : Transaction)
    → TransactionFits tx
    → TransactionFits tx'
    → length (serialize tx []) < 2 ^ 64
    → serialize tx [] ≡ serialize tx' []
    → SameWire tx tx'
serialize_injective tx tx' f f' small e = same _ _ (
    sym
      (deserialize-serialize tx tx d [] f (small, omega arith, sym (append-nil (serialize tx []))))
    ∙ deserialize-serialize tx tx' d [] f'
        (small, omega arith, e ∙ sym (append-nil (serialize tx' []))))
  where
    d : Deserializer
    d = record { buffer = serialize tx []; pos = 0 }

    same :
        (n m : ℕ)
        → ◌≡◌ {A = Outcome (Transaction × Deserializer)}
            (ok (record tx { cached_hash = tx.cached_hash; hash_cached = false }, advance n d))
            (ok (record tx' { cached_hash = tx.cached_hash; hash_cached = false }, advance m d))
        → SameWire tx tx'
    same n m q = ground arith
