-- ===== src/Crypto/Hash.antt =====
-- src/crypto/hash.h and hash.cpp: the hashes of the wire formats. SHA-256, RIPEMD-160 and the
-- signature check of OpenSSL are parameters.
use dinari_blockchain_hub.Base.{Bool, ◌++◌, replicate}
use dinari_blockchain_hub.Util.Serialize.{Bytes}

-- `ecdsa_verify hash signature pubkey` is the answer of ECDSA::Verify.
pub record Primitives : Type 0 where
  pub sha256 : Bytes → Bytes
  pub ripemd160 : Bytes → Bytes
  pub ecdsa_verify : Bytes → Bytes → Bytes → Bool

-- Hash256{}
abbrev pub zero_hash : Bytes
zero_hash = replicate 32 0

module _ (p : Primitives) where
  unfoldable pub double_sha256 : Bytes → Bytes
  double_sha256 b = p.sha256 (p.sha256 b)

  unfoldable pub compute_hash160 : Bytes → Bytes
  compute_hash160 b = p.ripemd160 (p.sha256 b)

  unfoldable pub merkle_hash : Bytes → Bytes → Bytes
  unfolding double_sha256
  merkle_hash left right = double_sha256 (left ++ right)
