-- ===== src/Tests/Scripts.antt =====
-- The theorems on the scripts, at the data.
use dinari_blockchain_hub.Base.{◌≡◌, ◌≢◌, refl, true, false, ◌&&◌, [], ◌∷◌, ◌++◌, arith}
use dinari_blockchain_hub.Base.Eq.{list_beq, nat_eq}
use dinari_blockchain_hub.Crypto.Hash.{compute_hash160}
use dinari_blockchain_hub.Core.Script.{
  fail, out_of_fuel, verify, execute_script, create_p2pkh, create_multisig, signature_valid, op_1,
  op_checksigverify,
}
use dinari_blockchain_hub.Core.Script.Steps.{execute_script_terminates}
use dinari_blockchain_hub.Core.Script.Templates.{accepted, push}
use dinari_blockchain_hub.Core.Script.Spending.{
  verify-create_p2pkh, verify-create_multisig, verify-op_checksigverify,
}
use dinari_blockchain_hub.Tests.Data.{toy, payment, pubkey, signature, key_hash, key_script}

verify-create_p2pkh_example :
    accepted (verify toy (push signature ++ push pubkey) (create_p2pkh key_hash) payment 0) ≡ (
      list_beq (compute_hash160 toy pubkey) key_hash
      && signature_valid toy (create_p2pkh key_hash) payment 0 signature pubkey)
verify-create_p2pkh_example =
    verify-create_p2pkh toy payment 0 key_hash pubkey signature refl (omega arith, omega arith)
      (omega arith, omega arith)

verify-create_multisig_example :
    accepted (verify toy (push signature) (create_multisig 1 (pubkey ∷ pubkey ∷ [])) payment 0)
    ≡ false
verify-create_multisig_example =
    verify-create_multisig toy payment 0 1 (pubkey ∷ pubkey ∷ []) (push signature) (omega arith)
      (omega arith) (omega arith) (omega arith)
      ((omega arith, omega arith), ((omega arith, omega arith), tt))

execute_script_terminates_example : execute_script toy [] payment 0 key_script [] ≢ fail out_of_fuel
execute_script_terminates_example = execute_script_terminates toy [] payment 0 key_script []

verify-op_checksigverify_example :
    accepted (verify toy (push key_hash) (push pubkey ++ op_checksigverify ∷ op_1 ∷ []) payment 0)
    ≡ true
verify-op_checksigverify_example =
    verify-op_checksigverify toy payment 0 pubkey key_hash (omega arith, omega arith)
      (omega arith, omega arith)
