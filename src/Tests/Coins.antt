-- ===== src/Tests/Coins.antt =====
-- A selection of coins, with an insertion sort, at the data.
use dinari_blockchain_hub.Base.{
  ◌+◌, ◌≡◌, refl, Bool, List, [], ◌∷◌, arith, All, if◌then◌else◌, Bool-cases, inl, inr,
}
use dinari_blockchain_hub.Base.Map.{lookup}
use dinari_blockchain_hub.Core.OutPoint.{OutPoint}
use dinari_blockchain_hub.Core.Utxo.{UtxoSet, get_utxo}
use dinari_blockchain_hub.Core.Coins.{
  Algorithms, smallest_first, Selection, success, select_coins, calculate_fee,
  estimate_transaction_size,
}
use dinari_blockchain_hub.Core.Coins.Payment.{
  coin_value, output_value, Present, Reorders, Pays, select_coins-Pays,
}
use dinari_blockchain_hub.Tests.Data.{coins, funding, funding_entry}

insert_by : (OutPoint → OutPoint → Bool) → OutPoint → List OutPoint → List OutPoint
insert_by c x [] = x ∷ []
insert_by c x (y ∷ ys) = let rest = y ∷ insert_by c x ys in if c x y then x ∷ y ∷ ys else rest

sort_by : (OutPoint → OutPoint → Bool) → List OutPoint → List OutPoint
unfolding insert_by
sort_by c [] = []
sort_by c (x ∷ xs) = insert_by c x (sort_by c xs)

abbrev algorithms : Algorithms
algorithms = record { sort = sort_by; shuffle = λ l. l }

insert_by-All :
    (P : OutPoint → Type 0) (c : OutPoint → OutPoint → Bool) (x : OutPoint) (l : List OutPoint)
    → P x
    → All P l
    → All P (insert_by c x l)
unfolding insert_by
insert_by-All P c x [] px h = (px, tt)
insert_by-All P c x (y ∷ ys) px h = elim (Bool-cases (c x y)) [
  | inl before ↦ rw before (px, h)
  | inr behind ↦ rw behind (h.0, insert_by-All P c x ys px h.1)
]

sort_by-All :
    (P : OutPoint → Type 0) (c : OutPoint → OutPoint → Bool) (l : List OutPoint)
    → All P l
    → All P (sort_by c l)
unfolding sort_by
sort_by-All P c [] h = tt
sort_by-All P c (x ∷ xs) h = insert_by-All P c x (sort_by c xs) h.0 (sort_by-All P c xs h.1)

coin_value-insert_by :
    (u : UtxoSet) (c : OutPoint → OutPoint → Bool) (x : OutPoint) (l : List OutPoint)
    → coin_value u (insert_by c x l) ≡ output_value (get_utxo x u) + coin_value u l
unfolding insert_by coin_value
coin_value-insert_by u c x [] = refl
coin_value-insert_by u c x (y ∷ ys) = ground (arith, coin_value-insert_by u c x ys)

coin_value-sort_by :
    (u : UtxoSet) (c : OutPoint → OutPoint → Bool) (l : List OutPoint)
    → coin_value u (sort_by c l) ≡ coin_value u l
unfolding sort_by coin_value
coin_value-sort_by u c [] = refl
coin_value-sort_by u c (x ∷ xs) =
    omega (arith, coin_value-insert_by u c x (sort_by c xs), coin_value-sort_by u c xs)

algorithms-Reorders : Reorders algorithms
algorithms-Reorders = record {
  sort_All = λ P Q c l order there h. sort_by-All P c l h;
  shuffle_All = λ P l h. h;
  sort_value = λ u Q c l order there. coin_value-sort_by u c l;
  shuffle_value = λ u l. refl;
}

abbrev chosen : Selection
chosen = record { selected = funding ∷ []; total_value = 50; fee = 2; change = 18 }

chosen_selected : select_coins algorithms coins 30 10 (funding ∷ []) smallest_first ≡ success chosen
unfolding select_coins sort_by get_utxo lookup calculate_fee estimate_transaction_size
chosen_selected = refl

funding-Present : Present coins funding
unfolding get_utxo lookup
funding-Present = (funding_entry.output, refl)

select_coins-Pays_example : Pays coins (λ o. o ≡ funding) 30 10 chosen
unfolding coin_value get_utxo lookup
select_coins-Pays_example =
    select_coins-Pays algorithms coins (λ o. o ≡ funding) 30 10 (funding ∷ []) smallest_first chosen
      algorithms-Reorders (omega arith) (funding-Present, tt) (refl, tt) (omega arith)
      chosen_selected
