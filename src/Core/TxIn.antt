-- ===== src/Core/TxIn.antt =====
-- src/core/transaction.h and transaction.cpp: TxIn, the spending of an earlier output.
use dinari_blockchain_hub.Base.{ℕ, Bool, length, []}
use dinari_blockchain_hub.Util.Serialize.{
  Bytes, Serializer, Reader, pure, ◌>>=◌, write_uint32, write_compact_size, write_bytes,
  read_uint32, read_compact_size, read_bytes,
}
use dinari_blockchain_hub.Core.OutPoint.{OutPoint, is_null}
use dinari_blockchain_hub.Core.OutPoint

pub record TxIn : Type 0 where
  pub prev_out : OutPoint
  pub script_sig : Bytes
  pub sequence : ℕ

unfoldable pub serialize : TxIn → Serializer → Serializer
serialize i s = write_uint32 i.sequence (
    write_bytes i.script_sig
      (write_compact_size (length i.script_sig) (OutPoint.serialize i.prev_out s)))

unfoldable pub deserialize : Reader TxIn
deserialize = do
  prev_out ← OutPoint.deserialize
  script_size ← read_compact_size
  script ← read_bytes script_size
  sequence ← read_uint32
  pure (record { prev_out = prev_out; script_sig = script; sequence = sequence })

unfoldable pub is_coinbase : TxIn → Bool
unfolding is_null
is_coinbase i = is_null i.prev_out

unfoldable pub get_size : TxIn → ℕ
get_size i = length (serialize i [])
