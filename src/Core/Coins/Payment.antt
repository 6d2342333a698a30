-- ===== src/Core/Coins/Payment.antt =====
-- What CoinSelector chooses (src/core/utxo.cpp).
use native.Mathlib.Nat.{mod-eq_of_lt}
use dinari_blockchain_hub.Base.{
  ℕ, ◌+◌, ◌*◌, ◌%◌, ◌-◌, ◌^◌, ◌<◌, ◌≡◌, refl, sym, ap, ◌∙◌, Bool, true, false, Option, none, some,
  List, [], ◌∷◌, ◌++◌, arith, leb, if◌then◌else◌, length, All, Option-cases, Bool-cases, inl, inr,
}
use dinari_blockchain_hub.Core.Amount.{add_amount, amount_mod}
use dinari_blockchain_hub.Core.OutPoint.{OutPoint}
use dinari_blockchain_hub.Core.TxOut.{TxOut}
use dinari_blockchain_hub.Core.Utxo.{UtxoSet, get_utxo}
use dinari_blockchain_hub.Core.Coins.{
  Algorithms, Strategy, largest_first, smallest_first, random, branch_and_bound, Selection, success,
  calculate_fee, estimate_transaction_size, take_coins, larger, smaller, select_largest_first,
  select_coins,
}

unfoldable pub output_value : Option TxOut → ℕ
output_value none = 0
output_value (some o) = o.value

-- What the coins are worth, with no wrap.
unfoldable pub coin_value : UtxoSet → List OutPoint → ℕ
unfolding output_value
coin_value u [] = 0
coin_value u (o ∷ os) = output_value (get_utxo o u) + coin_value u os

-- The set has the coin.
abbrev pub Present : UtxoSet → OutPoint → Type 0
Present u o = (x : TxOut) × (get_utxo o u ≡ some x)

-- A strict weak ordering of the coins for which Q holds, which std::sort asks of its comparison:
-- irreflexive and transitive, and so is being equivalent, with neither before the other.
pub record Orders (Q : OutPoint → Type 0) (c : OutPoint → OutPoint → Bool) : Type 0 where
  pub irreflexive : (a : OutPoint) → Q a → c a a ≡ false
  pub transitive : (a b d : OutPoint) → Q a → Q b → Q d → c a b ≡ true → c b d ≡ true → c a d ≡ true
  pub equivalent :
      (a b d : OutPoint)
      → Q a
      → Q b
      → Q d
      → c a b ≡ false
      → c b a ≡ false
      → c b d ≡ false
      → c d b ≡ false
      → (c a d ≡ false) × (c d a ≡ false)

-- Where the comparison orders the elements, sorting only reorders, and so does shuffling: what
-- holds of each element still does, and a sum is the same. Of sorting with any other comparison,
-- which is undefined, nothing is said.
pub record Reorders (alg : Algorithms) : Type 1 where
  pub sort_All :
      (P Q : OutPoint → Type 0) (c : OutPoint → OutPoint → Bool) (l : List OutPoint)
      → Orders Q c
      → All Q l
      → All P l
      → All P (alg.sort c l)
  pub shuffle_All : (P : OutPoint → Type 0) (l : List OutPoint) → All P l → All P (alg.shuffle l)
  pub sort_value :
      (u : UtxoSet) (Q : OutPoint → Type 0) (c : OutPoint → OutPoint → Bool) (l : List OutPoint)
      → Orders Q c
      → All Q l
      → coin_value u (alg.sort c l) ≡ coin_value u l
  pub shuffle_value :
      (u : UtxoSet) (l : List OutPoint) → coin_value u (alg.shuffle l) ≡ coin_value u l

larger-Orders : (u : UtxoSet) → Orders (Present u) (larger u)
unfolding larger
larger-Orders u = record {
  irreflexive = λ a (x, f). ground (arith, f);
  transitive = λ a b d (x, f) (y, g) (z, h) s t. ground (arith, f, g, h, s, t);
  equivalent = λ a b d (x, f) (y, g) (z, h) s t v w. ground (arith, f, g, h, s, t, v, w);
}

smaller-Orders : (u : UtxoSet) → Orders (Present u) (smaller u)
unfolding smaller
smaller-Orders u = record {
  irreflexive = λ a (x, f). ground (arith, f);
  transitive = λ a b d (x, f) (y, g) (z, h) s t. ground (arith, f, g, h, s, t);
  equivalent = λ a b d (x, f) (y, g) (z, h) s t v w. ground (arith, f, g, h, s, t, v, w);
}

-- A selection that pays: its value is that of its coins, and it splits into the target, the fee
-- for a transaction of its size, and the change.
pub record Pays (u : UtxoSet) (P : OutPoint → Type 0) (target fee_rate : ℕ) (s : Selection)
    : Type 0 where
  pub chosen : All P s.selected
  pub value : s.total_value ≡ coin_value u s.selected
  pub split : s.total_value ≡ target + s.fee + s.change
  pub fee_of_size : s.fee ≡ calculate_fee (estimate_transaction_size (length s.selected) 2) fee_rate

coin_value-append :
    (u : UtxoSet) (xs ys : List OutPoint)
    → coin_value u (xs ++ ys) ≡ coin_value u xs + coin_value u ys
unfolding coin_value
coin_value-append u [] ys = omega arith
coin_value-append u (x ∷ xs) ys = omega (arith, coin_value-append u xs ys)

All-append :
    (P : OutPoint → Type 0) (xs ys : List OutPoint) → All P xs → All P ys → All P (xs ++ ys)
All-append P [] ys hx hy = hy
All-append P (x ∷ xs) ys hx hy = (hx.0, All-append P xs ys hx.1 hy)

calculate_fee_bound : (size rate : ℕ) → calculate_fee size rate < 2 ^ 55
unfolding calculate_fee
calculate_fee_bound size rate = omega arith

module _ (u : UtxoSet) (P : OutPoint → Type 0) (target fee_rate : ℕ) where
  -- The selection that the loop builds.
  abbrev paying : List OutPoint → ℕ → ℕ → Selection
  paying more total fee = record {
    selected = more;
    total_value = total;
    fee = fee;
    change = (total + 2 * amount_mod - target - fee) % amount_mod;
  }

  -- A round on a coin that is there.
  take_coins_found :
      (coin : OutPoint) (coins selected : List OutPoint) (total : ℕ) (o : TxOut)
      → get_utxo coin u ≡ some o
      → take_coins u target fee_rate (coin ∷ coins) selected total ≡ (
          let more = selected ++ coin ∷ [] in
          let total = add_amount total o.value in
          let fee = calculate_fee (estimate_transaction_size (length more) 2) fee_rate in
          if leb (add_amount target fee) total
          then success (paying more total fee)
          else take_coins u target fee_rate coins more total)
  unfolding take_coins
  take_coins_found coin coins selected total o found = rw (found, take_coins) refl

  take_coins-Pays :
      (coins selected : List OutPoint) (total : ℕ) (s : Selection)
      → target < 2 ^ 63
      → All P coins
      → All P selected
      → total ≡ coin_value u selected
      → total + coin_value u coins < amount_mod
      → take_coins u target fee_rate coins selected total ≡ success s
      → Pays u P target fee_rate s
  unfolding take_coins coin_value output_value
  take_coins-Pays [] selected total s small hc hs same fits e = absurd (cc e)
  take_coins-Pays (coin ∷ coins) selected total s small hc hs same fits e =
      elim (Option-cases (get_utxo coin u)) [
        | inl missing ↦
            take_coins-Pays coins selected total s small hc.1 hs same (ground (arith, missing))
              (ground (arith, missing, e))
        | inr (o, found) ↦
            let more = selected ++ coin ∷ [] in
            let fee = calculate_fee (estimate_transaction_size (length more) 2) fee_rate in
            let bound = calculate_fee_bound (estimate_transaction_size (length more) 2) fee_rate in
            let worth : output_value (get_utxo coin u) ≡ o.value = ap output_value found in
            let fresh : All P more = All-append P selected (coin ∷ []) hs (hc.0, tt) in
            let sum : add_amount total o.value ≡ total + o.value =
              mod-eq_of_lt (ground (arith, worth)) in
            let due : add_amount target fee ≡ target + fee = mod-eq_of_lt (omega (arith, bound)) in
            let value : add_amount total o.value ≡ coin_value u more =
              omega (arith, sum, worth, coin_value-append u selected (coin ∷ [])) in
            let round = sym (take_coins_found coin coins selected total o found) ∙ e in
            elim (Bool-cases (leb (add_amount target fee) (add_amount total o.value))) [
              | inl enough ↦
                  let same_selection : paying more (add_amount total o.value) fee ≡ s =
                    ground (arith, enough, round) in
                  let pays : Pays u P target fee_rate (paying more (add_amount total o.value) fee) =
                    record {
                      chosen = fresh;
                      value = value;
                      split = ground (arith, enough, due);
                      fee_of_size = refl;
                    } in
                  rw (← same_selection) pays
              | inr short ↦
                  take_coins-Pays coins more (add_amount total o.value) s small hc.1 fresh value
                    (omega (arith, worth, sum, fits)) (ground (arith, short, round))
            ]
      ]

sorted_Pays :
    (alg : Algorithms) (u : UtxoSet) (P : OutPoint → Type 0) (target fee_rate : ℕ)
    (coins : List OutPoint) (s : Selection)
    → Reorders alg
    → target < 2 ^ 63
    → All (Present u) coins
    → All P coins
    → coin_value u coins < amount_mod
    → select_largest_first alg u target fee_rate coins ≡ success s
    → Pays u P target fee_rate s
unfolding select_largest_first coin_value
sorted_Pays alg u P target fee_rate coins s r small there all fits e =
    let sorted = r.sort_value u (Present u) (larger u) coins (larger-Orders u) there in
    take_coins-Pays u P target fee_rate (alg.sort (larger u) coins) [] 0 s small
      (r.sort_All P (Present u) (larger u) coins (larger-Orders u) there all) tt refl
      (omega (arith, sorted, fits)) e

-- Where all the available coins are in the set of unspent outputs and together worth less than
-- 2^64, the target is below 2^63, and sorting (by a strict weak ordering) and shuffling only
-- reorder: a strategy that succeeds chooses from the available coins only (what holds of each of
-- these holds of each chosen one), and the value of the chosen coins is the sum of the target, the
-- fee for a transaction with that many inputs, and the change.
pub select_coins-Pays :
    (alg : Algorithms) (u : UtxoSet) (P : OutPoint → Type 0) (target fee_rate : ℕ)
    (coins : List OutPoint) (strategy : Strategy) (s : Selection)
    → Reorders alg
    → target < 2 ^ 63
    → All (Present u) coins
    → All P coins
    → coin_value u coins < amount_mod
    → select_coins alg u target fee_rate coins strategy ≡ success s
    → Pays u P target fee_rate s
unfolding select_coins coin_value
select_coins-Pays alg u P target fee_rate coins largest_first s r small there all fits e =
    sorted_Pays alg u P target fee_rate coins s r small there all fits e
select_coins-Pays alg u P target fee_rate coins smallest_first s r small there all fits e =
    let order = smaller-Orders u in
    sorted_Pays alg u P target fee_rate (alg.sort (smaller u) coins) s r small
      (r.sort_All (Present u) (Present u) (smaller u) coins order there there)
      (r.sort_All P (Present u) (smaller u) coins order there all)
      (rw (r.sort_value u (Present u) (smaller u) coins order there) fits) e
select_coins-Pays alg u P target fee_rate coins random s r small there all fits e =
    sorted_Pays alg u P target fee_rate (alg.shuffle coins) s r small
      (r.shuffle_All (Present u) coins there) (r.shuffle_All P coins all)
      (rw (r.shuffle_value u coins) fits) e
select_coins-Pays alg u P target fee_rate coins branch_and_bound s r small there all fits e =
    sorted_Pays alg u P target fee_rate coins s r small there all fits e
