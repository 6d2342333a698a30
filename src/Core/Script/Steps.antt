-- ===== src/Core/Script/Steps.antt =====
-- How ExecuteScript (src/core/script.cpp) moves through a script: the fuel is enough, and one
-- equation for a push and one for an opcode.
use mathlib.Core.Path.{fun_ext, ap₂}
use dinari_blockchain_hub.Base.{
  ℕ, zero, suc, ◌≤◌, ◌≡◌, ◌≢◌, ◌⊎◌, inl, inr, refl, ◌∙◌, false, ◌&&◌, [], ◌∷◌, ◌++◌, arith, leb,
  length, take, drop, length-drop, length-append, take-append, drop-append,
}
use dinari_blockchain_hub.Util.Serialize.{Bytes}
use dinari_blockchain_hub.Crypto.Hash.{Primitives}
use dinari_blockchain_hub.Core.Transaction.{Transaction}
use dinari_blockchain_hub.Core.Script.{
  Run, ScriptError, ok, fail, out_of_fuel, Stack, ◌>>=◌, execute_opcode, run, execute_script,
  op_check_sig, op_equal_case,
}

pub Run-cases {ℓ} :
    {A : Type ℓ} (r : Run A) → ((a : A) × (r ≡ ok a)) ⊎ ((e : ScriptError) × (r ≡ fail e))
Run-cases (ok a) = inl (a, refl)
Run-cases (fail e) = inr (e, refl)

module _ (p : Primitives) (code : Bytes) (tx : Transaction) (k : ℕ) where
  -- One unit of fuel for each byte is enough, and more changes nothing.
  run-fuel :
      (f g : ℕ) (script : Bytes) (s : Stack)
      → length script ≤ f
      → length script ≤ g
      → run p code tx k f script s ≡ run p code tx k g script s
  unfolding run
  run-fuel f g [] s hf hg = refl
  run-fuel zero g (op ∷ rest) s hf hg = absurd (omega arith)
  run-fuel (suc f) zero (op ∷ rest) s hf hg = absurd (omega arith)
  run-fuel (suc f) (suc g) (op ∷ rest) s hf hg =
      let left = length-drop op rest in
      let pushes =
        run-fuel f g (drop op rest) (take op rest ∷ s) (omega (arith, left))
          (omega (arith, left)) in
      let runs : (t : Stack) → run p code tx k f rest t ≡ run p code tx k g rest t =
        λ t. run-fuel f g rest t (omega arith) (omega arith) in
      rw (fun_ext runs, pushes)

  run-push :
      (f n : ℕ) (rest : Bytes) (s : Stack)
      → 1 ≤ n
      → n ≤ 75
      → n ≤ length rest
      → run p code tx k (suc f) (n ∷ rest) s ≡ run p code tx k f (drop n rest) (take n rest ∷ s)
  unfolding run
  run-push f n rest s lo hi fits = ground arith

  -- A push takes its bytes off the script and onto the stack.
  pub execute_script-push :
      (bytes rest : Bytes) (s : Stack)
      → 1 ≤ length bytes
      → length bytes ≤ 75
      → execute_script p code tx k (length bytes ∷ (bytes ++ rest)) s
        ≡ execute_script p code tx k rest (bytes ∷ s)
  unfolding execute_script run
  execute_script-push bytes rest s lo hi =
      let long = length-append bytes rest in
      run-push (length (bytes ++ rest)) (length bytes) (bytes ++ rest) s lo hi (omega (arith, long))
      ∙ ap₂ (λ d t. run p code tx k (length (bytes ++ rest)) d (t ∷ s)) (drop-append bytes rest)
          (take-append bytes rest)
      ∙ run-fuel (length (bytes ++ rest)) (length rest) rest (bytes ∷ s) (omega (arith, long))
          (omega arith)

  -- Any other byte is an opcode.
  pub execute_script-opcode :
      (op : ℕ) (rest : Bytes) (s : Stack)
      → (leb 1 op && leb op 75) ≡ false
      → execute_script p code tx k (op ∷ rest) s
        ≡ (execute_opcode p code tx k op s >>= execute_script p code tx k rest)
  unfolding execute_script run
  execute_script-opcode op rest s h = rw h

  -- The loop never ends for want of fuel, unless an opcode says so, and none does.
  execute_opcode-fuel : (op : ℕ) (s : Stack) → execute_opcode p code tx k op s ≢ fail out_of_fuel
  unfolding execute_opcode op_check_sig op_equal_case
  execute_opcode-fuel op [] e = ground arith
  execute_opcode-fuel op (a ∷ []) e = ground arith
  execute_opcode-fuel op (a ∷ b ∷ s) e = ground arith

  run-ne-fuel :
      (f : ℕ) (script : Bytes) (s : Stack)
      → length script ≤ f
      → run p code tx k f script s ≢ fail out_of_fuel
  unfolding run
  run-ne-fuel f [] s h = λ e. cc
  run-ne-fuel zero (op ∷ rest) s h = absurd (omega arith)
  run-ne-fuel (suc f) (op ∷ rest) s h = λ e. elim (Run-cases (execute_opcode p code tx k op s)) [
    | inl (t, done) ↦ ground (
      arith,
      done,
      length-drop op rest,
      run-ne-fuel f (drop op rest) (take op rest ∷ s),
      run-ne-fuel f rest t,
    )
    | inr (err, failed) ↦ ground (
      arith,
      failed,
      length-drop op rest,
      execute_opcode-fuel op s,
      run-ne-fuel f (drop op rest) (take op rest ∷ s),
    )
  ]

  -- Every run of ExecuteScript ends in a stack or in one of the code's own errors, never for want
  -- of fuel: one unit for each byte of the script is enough.
  pub execute_script_terminates :
      (script : Bytes) (s : Stack) → execute_script p code tx k script s ≢ fail out_of_fuel
  unfolding execute_script
  execute_script_terminates script s = run-ne-fuel (length script) script s (omega arith)
