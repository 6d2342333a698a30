-- ===== src/Core/TxOut.antt =====
-- src/core/transaction.h and transaction.cpp: TxOut, an amount and the script that locks it.
use dinari_blockchain_hub.Base.{ℕ, ◌*◌, Bool, true, false, ltb, if◌then◌else◌, not, length, []}
use dinari_blockchain_hub.Util.Serialize.{
  Bytes, Serializer, Reader, pure, ◌>>=◌, write_uint64, write_compact_size, write_bytes,
  read_uint64, read_compact_size, read_bytes,
}
use dinari_blockchain_hub.Core.Amount.{money_range, min_relay_tx_fee}

pub record TxOut : Type 0 where
  pub value : ℕ
  pub script_pub_key : Bytes

unfoldable pub serialize : TxOut → Serializer → Serializer
serialize o s =
    write_bytes o.script_pub_key
      (write_compact_size (length o.script_pub_key) (write_uint64 o.value s))

unfoldable pub deserialize : Reader TxOut
deserialize = do
  value ← read_uint64
  script_size ← read_compact_size
  script ← read_bytes script_size
  pure (record { value = value; script_pub_key = script })

unfoldable pub is_valid : TxOut → Bool
unfolding money_range
is_valid o =
    if not (money_range o.value)
    then false
    else if ltb 10000 (length o.script_pub_key)
    then false
    else true

unfoldable pub is_dust : TxOut → Bool
is_dust o = ltb o.value (min_relay_tx_fee * 3)

unfoldable pub get_size : TxOut → ℕ
get_size o = length (serialize o [])
