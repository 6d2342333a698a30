-- ===== src/Blockchain/Index/Path.antt =====
-- FindPath of src/blockchain/blockchain.cpp.
use dinari_blockchain_hub.Base.{
  ℕ, zero, suc, ◌<◌, ◌≡◌, refl, sym, inl, inr, some, List, [], ◌∷◌, ◌++◌, reverse, arith,
  Option-cases,
}
use mathlib.Core.List.{reverse-cons}
use mathlib.Core.Path.{subst}
use dinari_blockchain_hub.Base.Eq.{nat_eq, list_eq, =?_cases}
use dinari_blockchain_hub.Util.Serialize.{Bytes}
use dinari_blockchain_hub.Blockchain.Index.{Indices, prev_of, height_of, path_back, find_path}
use dinari_blockchain_hub.Blockchain.Index.Ancestry.{
  IsTree, Ancestor, Known, prev_of-Known, Ancestor-root, Ancestor-prev_of,
}

-- Each block of the path stands on the one before, the first on `start`; the last is `stop`.
abbrev pub IsLinked : Indices → Bytes → List Bytes → Bytes → Type 0
IsLinked m start [] stop = start ≡ stop
IsLinked m start (h ∷ hs) stop = (prev_of h m ≡ some start) × IsLinked m h hs stop

append-IsLinked :
    (m : Indices) (start : Bytes) (path : List Bytes) (j h : Bytes)
    → IsLinked m start path j
    → prev_of h m ≡ some j
    → IsLinked m start (path ++ h ∷ []) h
append-IsLinked m start [] j h l e = (subst (λ s. prev_of h m ≡ some s) (sym l) e, refl)
append-IsLinked m start (g ∷ path) j h l e = (l.0, append-IsLinked m g path j h l.1 e)

path_back-IsLinked :
    (m : Indices) (start h : Bytes) (fuel : ℕ)
    → IsTree m
    → Known m h
    → Ancestor m start h
    → height_of h m < fuel
    → IsLinked m start (reverse (path_back m fuel start (some h))) h
unfolding path_back
path_back-IsLinked m start h zero t k a le = absurd (omega arith)
path_back-IsLinked m start h (suc fuel) t k a le = elim (=?_cases h start) [
  | inl (b, e) ↦ rw b (sym e)
  | inr (b, e) ↦ elim (Option-cases (prev_of h m)) [
    | inl n ↦ absurd (e (sym (Ancestor-root m t start h n a)))
    | inr (j, p) ↦ elim (Ancestor-prev_of m t start h j p a) [
      | inl same ↦ absurd (e (sym same))
      | inr c ↦
          let (known, up) = prev_of-Known m t j h k p in
          rw (b, p)
            (subst (λ l. IsLinked m start l h)
              (sym (reverse-cons h (path_back m fuel start (some j))))
              (append-IsLinked m start (reverse (path_back m fuel start (some j))) j h
                (path_back-IsLinked m start j fuel t known c (omega (arith, le, up))) p))
    ]
  ]
]

-- In a tree of block indices, FindPath from a block to one that stands on it gives blocks of which
-- the first stands directly on the start, each further one directly on the one before, and the
-- last is the end.
pub find_path-IsLinked :
    (m : Indices) (start stop : Bytes)
    → IsTree m
    → Known m stop
    → Ancestor m start stop
    → IsLinked m start (find_path m start stop) stop
unfolding find_path
find_path-IsLinked m start stop t k a =
    path_back-IsLinked m start stop (suc (height_of stop m)) t k a (omega arith)
