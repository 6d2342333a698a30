-- ===== src/Core/OutPoint.antt =====
-- src/core/transaction.h and transaction.cpp: OutPoint, the reference to an output of an earlier
-- transaction and the key of every UTXO container.
use dinari_blockchain_hub.Base.{ℕ, Bool, true, ◌≡◌, ◌↔◌, [], ◌∷◌, ◌&&◌, ◌==◌, arith, ==_iff}
use dinari_blockchain_hub.Base.Eq.{Eq, list_beq, list_beq_iff, nat_eq}
use dinari_blockchain_hub.Util.Serialize.{
  Bytes, Serializer, Reader, pure, ◌>>=◌, write_hash256, write_uint32, read_hash256, read_uint32,
}

pub record OutPoint : Type 0 where
  pub tx_hash : Bytes
  pub index : ℕ

abbrev pub max_index : ℕ
max_index = 0xffff_ffff

-- OutPoint(): `index` is set and `txHash` is not, so its 32 bytes are whatever stood in memory.
unfoldable pub default_out_point : Bytes → OutPoint
default_out_point garbage = record { tx_hash = garbage; index = max_index }

unfoldable pub serialize : OutPoint → Serializer → Serializer
serialize o s = write_uint32 o.index (write_hash256 o.tx_hash s)

unfoldable pub deserialize : Reader OutPoint
deserialize = do
  tx_hash ← read_hash256
  index ← read_uint32
  pure (record { tx_hash = tx_hash; index = index })

abbrev pub all_zero : Bytes → Bool
all_zero [] = true
all_zero (b ∷ bs) = (b == 0) && all_zero bs

unfoldable pub is_null : OutPoint → Bool
is_null o = all_zero o.tx_hash && o.index == max_index

-- operator==
abbrev pub beq : OutPoint → OutPoint → Bool
beq a b = list_beq a.tx_hash b.tx_hash && a.index == b.index

pub beq_iff : (a b : OutPoint) → (beq a b ≡ true) ↔ (a ≡ b)
beq_iff a b = ground (arith, list_beq_iff a.tx_hash b.tx_hash, ==_iff a.index b.index)

instance abbrev pub out_point_eq : Eq OutPoint
out_point_eq = record { beq = beq; beq_iff = beq_iff }
