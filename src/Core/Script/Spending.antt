-- ===== src/Core/Script/Spending.antt =====
-- Who can spend the outputs of the script templates (src/core/script.cpp).
use dinari_blockchain_hub.Base.{
  ℕ, zero, suc, ◌≤◌, ◌≡◌, inl, inr, refl, Bool, true, false, ◌&&◌, List, [], ◌∷◌, ◌++◌, arith,
  if◌then◌else◌, length, All, ◌==◌,
}
use dinari_blockchain_hub.Base.Eq.{list_beq, nat_eq}
use dinari_blockchain_hub.Util.Serialize.{Bytes}
use dinari_blockchain_hub.Crypto.Hash.{Primitives, compute_hash160}
use dinari_blockchain_hub.Core.Transaction.{Transaction}
use dinari_blockchain_hub.Core.Script.{
  ok, fail, ◌>>=◌, execute_script, op_check_sig, signature_valid, verify, create_p2pkh, create_p2sh,
  create_multisig, create_null_data, bool_bytes, op_1, op_checksigverify, equalverify_failed,
  top_is_true, empty_signature,
}
use dinari_blockchain_hub.Core.Script.Steps.{Run-cases}
use dinari_blockchain_hub.Core.Script.Templates.{
  accepted, push, IsPushable, execute_two_pushes, execute_p2pkh, execute_one_push, execute_p2sh,
  execute_null_data, create_multisig-Fails, execute_checksigverify,
}

-- The end of a run of each template.
if_accepted :
    (same valid : Bool) (n : ℕ)
    → 1 ≤ n
    → accepted (
        (if same
          then (if n == 0 then fail empty_signature else ok (bool_bytes valid ∷ []))
          else fail equalverify_failed)
        >>= top_is_true)
      ≡ (same && valid)
if_accepted same valid zero h = absurd (omega arith)
if_accepted false valid (suc n) h = refl
if_accepted true false (suc n) h = ground arith
if_accepted true true (suc n) h = ground arith

bool_accepted : (same : Bool) → accepted (ok (bool_bytes same ∷ []) >>= top_is_true) ≡ same
bool_accepted false = refl
bool_accepted true = refl

module _ (p : Primitives) (tx : Transaction) (k : ℕ) where
  -- A script of the key-hash template, its hash of 20 bytes, lets an input through that pushes a
  -- signature and a public key (1 to 75 bytes each) exactly when the key has that hash and the
  -- signature is valid for the key.
  pub verify-create_p2pkh :
      (hash pubkey signature : Bytes)
      → length hash ≡ 20
      → IsPushable signature
      → IsPushable pubkey
      → accepted (verify p (push signature ++ push pubkey) (create_p2pkh hash) tx k) ≡ (
          list_beq (compute_hash160 p pubkey) hash
          && signature_valid p (create_p2pkh hash) tx k signature pubkey)
  unfolding verify op_check_sig
  verify-create_p2pkh hash pubkey signature e hs hk =
      rw
        (
          execute_two_pushes p [] tx k signature pubkey hs hk,
          execute_p2pkh p (create_p2pkh hash) tx k hash pubkey signature e,
        )
        (if_accepted (list_beq (compute_hash160 p pubkey) hash)
          (signature_valid p (create_p2pkh hash) tx k signature pubkey) (length signature) hs.0)

  -- A script of the script-hash template, its hash of 20 bytes, lets an input through that pushes
  -- one script of 1 to 75 bytes exactly when that script has the hash: what the pushed script says
  -- has no part in the answer.
  pub verify-create_p2sh :
      (hash redeem : Bytes)
      → length hash ≡ 20
      → IsPushable redeem
      → accepted (verify p (push redeem) (create_p2sh hash) tx k)
        ≡ list_beq (compute_hash160 p redeem) hash
  unfolding verify
  verify-create_p2sh hash redeem e hr =
      rw
        (execute_one_push p [] tx k redeem hr, execute_p2sh p (create_p2sh hash) tx k hash redeem e)
        (bool_accepted (list_beq (compute_hash160 p redeem) hash))

  -- Nothing spends an output of the null-data template: whatever the input's script is, the answer
  -- is no.
  pub verify-create_null_data :
      (payload script_sig : Bytes)
      → accepted (verify p script_sig (create_null_data payload) tx k) ≡ false
  unfolding verify
  verify-create_null_data payload script_sig =
      elim (Run-cases (execute_script p [] tx k script_sig [])) [
        | inl (s, done) ↦
            rw (done, execute_null_data p (create_null_data payload) tx k payload s) refl
        | inr (e, failed) ↦ rw failed refl
      ]

  -- Nothing spends an output of the multisig template with 1 to 16 keys of 1 to 75 bytes and 1 to
  -- 16 of them required: whatever the input's script is, the answer is no.
  pub verify-create_multisig :
      (required : ℕ) (keys : List Bytes) (script_sig : Bytes)
      → 1 ≤ required
      → required ≤ 16
      → 1 ≤ length keys
      → length keys ≤ 16
      → All IsPushable keys
      → accepted (verify p script_sig (create_multisig required keys) tx k) ≡ false
  unfolding verify
  verify-create_multisig required keys script_sig h1 h2 h3 h4 h5 =
      elim (Run-cases (execute_script p [] tx k script_sig [])) [
        | inl (s, done) ↦
            let code = create_multisig required keys in
            let failing = create_multisig-Fails p code tx k required keys s (h1, h2) (h3, h4) h5 in
            rw (done, failing.1) refl
        | inr (e, failed) ↦ rw failed refl
      ]

  -- A script that checks a signature with OP_CHECKSIGVERIFY and then pushes 1 lets every input
  -- through that pushes some signature, where signature and key have 1 to 75 bytes: a wrong
  -- signature does not stop it.
  pub verify-op_checksigverify :
      (pubkey signature : Bytes)
      → IsPushable signature
      → IsPushable pubkey
      → accepted (verify p (push signature) (push pubkey ++ op_checksigverify ∷ op_1 ∷ []) tx k)
        ≡ true
  unfolding verify
  verify-op_checksigverify pubkey signature hs hk =
      rw
        (
          execute_one_push p [] tx k signature hs,
          execute_checksigverify p (push pubkey ++ op_checksigverify ∷ op_1 ∷ []) tx k pubkey
              signature hs hk,
        )
        refl
