-- ===== src/Core/Script/Templates.antt =====
-- How the interpreter of src/core/script.cpp runs the script templates.
use dinari_blockchain_hub.Base.{
  ℕ, zero, suc, ◌+◌, ◌-◌, ◌%◌, ◌≤◌, ◌≡◌, inl, inr, refl, ap, ◌∙◌, sym, Bool, true, false, List, [],
  ◌∷◌, ◌++◌, arith, if◌then◌else◌, length, append-nil, append_assoc, All,
}
use mathlib.Core.Path.{ap₂}
use native.Mathlib.Nat.{mod-eq_of_lt}
use dinari_blockchain_hub.Base.Eq.{list_beq, nat_eq}
use dinari_blockchain_hub.Util.Serialize.{Bytes}
use dinari_blockchain_hub.Crypto.Hash.{Primitives, compute_hash160}
use dinari_blockchain_hub.Core.Transaction.{Transaction}
use dinari_blockchain_hub.Core.Script.{
  Run, ScriptError, ok, fail, Stack, ◌>>=◌, execute_opcode, execute_script, op_check_sig,
  op_equal_case, signature_valid, create_p2pkh, create_p2sh, create_multisig, create_null_data,
  push_keys, bool_bytes, op_1, op_equalverify, op_checksig, op_dup, op_hash160, op_checksigverify,
  op_equal, op_checkmultisig, op_return, unknown_opcode, equalverify_failed, return_executed,
  op_pushdata1,
}
use dinari_blockchain_hub.Core.Script.Steps.{execute_script-push, execute_script-opcode, Run-cases}

-- Whether Verify answers true.
abbrev pub accepted {ℓ} : {A : Type ℓ} → Run A → Bool
accepted (ok a) = true
accepted (fail e) = false

-- A direct push of the bytes.
abbrev pub push : Bytes → Bytes
push bytes = length bytes ∷ bytes

-- The length of a direct push.
abbrev pub IsPushable : Bytes → Type 0
IsPushable bytes = (1 ≤ length bytes) × (length bytes ≤ 75)

module _ (p : Primitives) (code : Bytes) (tx : Transaction) (k : ℕ) where
  execute_script-nil : (s : Stack) → execute_script p code tx k [] s ≡ ok s
  unfolding execute_script
  execute_script-nil s = refl

  pub execute_two_pushes :
      (a b : Bytes)
      → IsPushable a
      → IsPushable b
      → execute_script p code tx k (push a ++ push b) [] ≡ ok (b ∷ a ∷ [])
  execute_two_pushes a b ha hb =
      execute_script-push p code tx k a (push b) [] ha.0 ha.1
      ∙ ap (λ r. execute_script p code tx k (length b ∷ r) (a ∷ [])) (sym (append-nil b))
      ∙ execute_script-push p code tx k b [] (a ∷ []) hb.0 hb.1
      ∙ execute_script-nil (b ∷ a ∷ [])

  execute_push_of :
      (n : ℕ) (bytes rest : Bytes) (s : Stack)
      → length bytes ≡ n
      → 1 ≤ n
      → n ≤ 75
      → execute_script p code tx k (n ∷ (bytes ++ rest)) s
        ≡ execute_script p code tx k rest (bytes ∷ s)
  execute_push_of n bytes rest s e lo hi =
      rw (← e) (execute_script-push p code tx k bytes rest s (rw e lo) (rw e hi))

  check_only :
      (s : Stack) → execute_script p code tx k (op_checksig ∷ []) s ≡ op_check_sig p code tx k s
  unfolding execute_opcode
  check_only s =
      execute_script-opcode p code tx k op_checksig [] s refl
      ∙ elim (Run-cases (op_check_sig p code tx k s)) [
        | inl (t, done) ↦ rw (done, execute_script-nil t) refl
        | inr (e, failed) ↦ rw failed refl
      ]

  check_after_equal :
      (same : Bool) (pubkey signature : Bytes)
      → ((if same then ok (pubkey ∷ signature ∷ []) else fail equalverify_failed)
          >>= execute_script p code tx k (op_checksig ∷ []))
        ≡ (if same
            then op_check_sig p code tx k (pubkey ∷ signature ∷ [])
            else fail equalverify_failed)
  check_after_equal true pubkey signature = check_only (pubkey ∷ signature ∷ [])
  check_after_equal false pubkey signature = refl

  -- The run of a pay-to-key-hash script on a public key and a signature.
  pub execute_p2pkh :
      (hash pubkey signature : Bytes)
      → length hash ≡ 20
      → execute_script p code tx k (create_p2pkh hash) (pubkey ∷ signature ∷ []) ≡ (
          if list_beq (compute_hash160 p pubkey) hash
          then op_check_sig p code tx k (pubkey ∷ signature ∷ [])
          else fail equalverify_failed)
  unfolding create_p2pkh execute_opcode op_equal_case
  execute_p2pkh hash pubkey signature e =
      let tail = op_equalverify ∷ op_checksig ∷ [] in
      let key_hash = compute_hash160 p pubkey in
      execute_script-opcode p code tx k op_dup (op_hash160 ∷ 20 ∷ (hash ++ tail))
        (pubkey ∷ signature ∷ []) refl
      ∙ execute_script-opcode p code tx k op_hash160 (20 ∷ (hash ++ tail))
          (pubkey ∷ pubkey ∷ signature ∷ []) refl
      ∙ execute_push_of 20 hash tail (key_hash ∷ pubkey ∷ signature ∷ []) e (omega arith)
          (omega arith)
      ∙ execute_script-opcode p code tx k op_equalverify (op_checksig ∷ [])
          (hash ∷ key_hash ∷ pubkey ∷ signature ∷ []) refl
      ∙ check_after_equal (list_beq key_hash hash) pubkey signature

  execute_check_sig :
      (pubkey signature : Bytes) (s : Stack)
      → 1 ≤ length signature
      → execute_opcode p code tx k op_checksigverify (pubkey ∷ signature ∷ s)
        ≡ ok (bool_bytes (signature_valid p code tx k signature pubkey) ∷ s)
  unfolding execute_opcode op_check_sig
  execute_check_sig pubkey signature s h = ground arith

  pub execute_checksigverify :
      (pubkey signature : Bytes)
      → IsPushable signature
      → IsPushable pubkey
      → execute_script p code tx k (push pubkey ++ op_checksigverify ∷ op_1 ∷ []) (signature ∷ [])
        ≡ ok (bool_bytes true ∷ bool_bytes (signature_valid p code tx k signature pubkey) ∷ [])
  unfolding execute_opcode
  execute_checksigverify pubkey signature hs hk =
      let answer = bool_bytes (signature_valid p code tx k signature pubkey) in
      execute_script-push p code tx k pubkey (op_checksigverify ∷ op_1 ∷ []) (signature ∷ []) hk.0
        hk.1
      ∙ execute_script-opcode p code tx k op_checksigverify (op_1 ∷ []) (pubkey ∷ signature ∷ [])
          refl
      ∙ ap (λ r. r >>= execute_script p code tx k (op_1 ∷ []))
          (execute_check_sig pubkey signature [] hs.0)
      ∙ execute_script-opcode p code tx k op_1 [] (answer ∷ []) refl
      ∙ execute_script-nil (bool_bytes true ∷ answer ∷ [])

  pub execute_one_push :
      (a : Bytes) → IsPushable a → execute_script p code tx k (push a) [] ≡ ok (a ∷ [])
  execute_one_push a ha =
      ap (λ r. execute_script p code tx k (length a ∷ r) []) (sym (append-nil a))
      ∙ execute_script-push p code tx k a [] [] ha.0 ha.1
      ∙ execute_script-nil (a ∷ [])

  pub execute_p2sh :
      (hash redeem : Bytes)
      → length hash ≡ 20
      → execute_script p code tx k (create_p2sh hash) (redeem ∷ [])
        ≡ ok (bool_bytes (list_beq (compute_hash160 p redeem) hash) ∷ [])
  unfolding create_p2sh execute_opcode op_equal_case
  execute_p2sh hash redeem e =
      let tail = op_equal ∷ [] in
      let key_hash = compute_hash160 p redeem in
      execute_script-opcode p code tx k op_hash160 (20 ∷ (hash ++ tail)) (redeem ∷ []) refl
      ∙ execute_push_of 20 hash tail (key_hash ∷ []) e (omega arith) (omega arith)
      ∙ execute_script-opcode p code tx k op_equal [] (hash ∷ key_hash ∷ []) refl
      ∙ execute_script-nil (bool_bytes (list_beq key_hash hash) ∷ [])

  pub execute_null_data :
      (payload : Bytes) (s : Stack)
      → execute_script p code tx k (create_null_data payload) s ≡ fail return_executed
  unfolding create_null_data execute_opcode
  execute_null_data payload s =
      let long = op_pushdata1 ∷ (length payload % 256) ∷ payload in
      let short = (length payload % 256) ∷ payload in
      ground (
        arith,
        execute_script-opcode p code tx k op_return long s refl,
        execute_script-opcode p code tx k op_return short s refl,
      )

  abbrev pub Fails : Bytes → Stack → Type 0
  Fails script s = (e : ScriptError) × (execute_script p code tx k script s ≡ fail e)

  -- OP_CHECKMULTISIG ends every run, and so does OP_2 to OP_16.
  checkmultisig-Fails : (s : Stack) → Fails (op_checkmultisig ∷ []) s
  unfolding execute_opcode
  checkmultisig-Fails s = (
    unknown_opcode op_checkmultisig,
    execute_script-opcode p code tx k op_checkmultisig [] s refl,
  )

  unknown_number :
      (op : ℕ) (s : Stack)
      → 82 ≤ op
      → op ≤ 96
      → execute_opcode p code tx k op s ≡ fail (unknown_opcode op)
  unfolding execute_opcode
  unknown_number op s lo hi = ground arith

  number-Fails :
      (n : ℕ) (rest : Bytes) (s : Stack)
      → 1 ≤ n
      → n ≤ 16
      → ((t : Stack) → Fails rest t)
      → Fails ((op_1 + n - 1) ∷ rest) s
  unfolding execute_opcode
  number-Fails zero rest s lo hi h = absurd (omega arith)
  number-Fails (suc zero) rest s lo hi h =
      let failing = h (bool_bytes true ∷ s) in
      (failing.0, execute_script-opcode p code tx k op_1 rest s refl ∙ failing.1)
  number-Fails (suc (suc n)) rest s lo hi h =
      let op = op_1 + suc (suc n) - 1 in
      (
        unknown_opcode op,
        execute_script-opcode p code tx k op rest s (ground arith)
            ∙ ap (λ r. r >>= execute_script p code tx k rest)
                (unknown_number op s (omega arith) (omega arith)),
      )

  push_keys-Fails :
      (keys : List Bytes) (rest : Bytes) (s : Stack)
      → All IsPushable keys
      → ((t : Stack) → Fails rest t)
      → Fails (push_keys keys ++ rest) s
  unfolding push_keys
  push_keys-Fails [] rest s hk h = h s
  push_keys-Fails (key ∷ keys) rest s hk h =
      let failing = push_keys-Fails keys rest (key ∷ s) hk.1 h in
      (
        failing.0,
        ap (λ d. execute_script p code tx k d s)
              (ap₂ (λ n tail. n ∷ tail) (mod-eq_of_lt (omega arith))
                (append_assoc key (push_keys keys) rest))
            ∙ execute_script-push p code tx k key (push_keys keys ++ rest) s hk.0.0 hk.0.1
            ∙ failing.1,
      )

  pub create_multisig-Fails :
      (required : ℕ) (keys : List Bytes) (s : Stack)
      → (1 ≤ required) × (required ≤ 16)
      → (1 ≤ length keys) × (length keys ≤ 16)
      → All IsPushable keys
      → Fails (create_multisig required keys) s
  unfolding create_multisig
  create_multisig-Fails required keys s h1 h2 h3 =
      let first : (op_1 + required - 1) % 256 ≡ op_1 + required - 1 = mod-eq_of_lt (omega arith) in
      let last : (op_1 + length keys + 256 - 1) % 256 ≡ op_1 + length keys - 1 = omega arith in
      let ending : (t : Stack) → Fails ((op_1 + length keys - 1) ∷ op_checkmultisig ∷ []) t =
        λ t. number-Fails (length keys) (op_checkmultisig ∷ []) t h2.0 h2.1 checkmultisig-Fails in
      let failing =
        number-Fails required (push_keys keys ++ (op_1 + length keys - 1) ∷ op_checkmultisig ∷ []) s
          h1.0 h1.1
          (λ t.
            push_keys-Fails keys ((op_1 + length keys - 1) ∷ op_checkmultisig ∷ []) t h3 ending) in
      (
        failing.0,
        ap₂
              (λ a b.
                execute_script p code tx k (a ∷ (push_keys keys ++ b ∷ op_checkmultisig ∷ [])) s)
              first last
            ∙ failing.1,
      )
