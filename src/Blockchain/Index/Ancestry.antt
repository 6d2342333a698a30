-- ===== src/Blockchain/Index/Ancestry.antt =====
-- The tree that the pointers to the previous block make in src/blockchain/blockchain.cpp, and the
-- fork of two of its blocks.
use dinari_blockchain_hub.Base.{
  ℕ, zero, suc, ◌+◌, ◌≤◌, ◌<◌, ◌≡◌, ◌≢◌, refl, sym, ◌⊎◌, inl, inr, none, some, arith, ltb,
  Option-cases, Bool-cases,
}
use mathlib.Core.Path.{subst}
use dinari_blockchain_hub.Base.Eq.{nat_eq, list_eq, =?_cases}
use dinari_blockchain_hub.Base.Map.{lookup}
use dinari_blockchain_hub.Util.Serialize.{Bytes}
use dinari_blockchain_hub.Blockchain.Index.{
  BlockIndex, Indices, prev_of, height_of, lower, meet, fork_at, find_fork,
}

-- The previous block of each block that has one is there, one lower; there is one block at most
-- that has none, and its height is 0.
pub record IsTree (m : Indices) : Type 0 where
  pub root_height :
      (h : Bytes) (x : BlockIndex) → lookup h m ≡ some x → x.prev ≡ none → x.height ≡ 0
  pub one_root :
      (g h : Bytes) (x y : BlockIndex)
      → lookup g m ≡ some x
      → lookup h m ≡ some y
      → x.prev ≡ none
      → y.prev ≡ none
      → g ≡ h
  pub parent :
      (g h : Bytes) (x : BlockIndex)
      → lookup h m ≡ some x
      → x.prev ≡ some g
      → (y : BlockIndex) × (lookup g m ≡ some y) × (x.height ≡ y.height + 1)

-- The second block is the first, or stands on it.
pub data Ancestor (m : Indices) (g : Bytes) : Bytes → Type 0 where
  self : Ancestor m g g
  above : {h k : Bytes} → prev_of h m ≡ some k → Ancestor m g k → Ancestor m g h

-- A block of the tree.
abbrev pub Known : Indices → Bytes → Type 0
Known m h = (x : BlockIndex) × (lookup h m ≡ some x)

-- The highest block that two blocks share.
unfoldable pub IsForkOf : Indices → Bytes → Bytes → Bytes → Type 0
IsForkOf m a b f =
    Ancestor m f a
    × Ancestor m f b
    × ((g : Bytes) → Ancestor m g a → Ancestor m g b → Ancestor m g f)

module _ (m : Indices) (t : IsTree m) where
  pub prev_of-Known :
      (g h : Bytes)
      → Known m h
      → prev_of h m ≡ some g
      → Known m g × (height_of h m ≡ height_of g m + 1)
  unfolding prev_of height_of
  prev_of-Known g h (x, found) e =
      let (y, at, up) = t.parent g h x found (ground (arith, found, e)) in
      ((y, at), ground (arith, found, at, up))

  pub root-height_of : (h : Bytes) → Known m h → prev_of h m ≡ none → height_of h m ≡ 0
  unfolding prev_of height_of
  root-height_of h (x, found) e = ground (arith, found, e, t.root_height h x found)

  roots-equal :
      (g h : Bytes) → Known m g → Known m h → prev_of g m ≡ none → prev_of h m ≡ none → g ≡ h
  unfolding prev_of
  roots-equal g h (x, found) (y, at) e f =
      t.one_root g h x y found at (ground (arith, found, e)) (ground (arith, at, f))

  pub Ancestor-height_of :
      (g h : Bytes) → Known m h → Ancestor m g h → (g ≡ h) ⊎ (height_of g m < height_of h m)
  Ancestor-height_of g _ k self = inl refl
  Ancestor-height_of g h k (above {k = j} e a) =
      let (known, up) = prev_of-Known j h k e in
      inr (ground (arith, up, Ancestor-height_of g j known a))

  pub Ancestor-Known : (g h : Bytes) → Known m h → Ancestor m g h → Known m g
  Ancestor-Known g _ k self = k
  Ancestor-Known g h k (above {k = j} e a) = Ancestor-Known g j (prev_of-Known j h k e).0 a

  -- An ancestor that is another block is one of the previous block.
  pub Ancestor-prev_of :
      (g h k : Bytes) → prev_of h m ≡ some k → Ancestor m g h → (g ≡ h) ⊎ Ancestor m g k
  Ancestor-prev_of g _ k e self = inl refl
  Ancestor-prev_of g h k e (above {k = j} f a) = inr (subst (Ancestor m g) (ground (arith, e, f)) a)

  -- The root stands on itself alone.
  pub Ancestor-root : (g h : Bytes) → prev_of h m ≡ none → Ancestor m g h → g ≡ h
  Ancestor-root g _ n self = refl
  Ancestor-root g h n (above e a) = absurd (cc (n, e))

  pub equal-Ancestor : (g h : Bytes) → g ≡ h → Ancestor m g h
  equal-Ancestor g h e = subst (Ancestor m g) e self

  -- What the walk down from a block to a height finds.
  LoweredTo : Bytes → ℕ → Bytes → Type 0
  LoweredTo h height y =
      Known m y
      × Ancestor m y h
      × ((height_of y m ≡ height) ⊎ ((height_of h m ≤ height) × (y ≡ h)))
      × ((g : Bytes) → Ancestor m g h → height_of g m ≤ height → Ancestor m g y)

  lower_lem :
      (fuel height : ℕ) (h : Bytes)
      → Known m h
      → height_of h m ≤ height + fuel
      → (y : Bytes) × (lower m fuel height (some h) ≡ some y) × LoweredTo h height y
  unfolding lower LoweredTo
  lower_lem zero height h k le = (h, refl, (k, self, inr ((omega arith), refl), λ g a c. a))
  lower_lem (suc fuel) height h k le = elim (Bool-cases (ltb height (height_of h m))) [
    | inr n ↦ (h, ground (arith, n), (k, self, inr (ground (arith, n), refl), λ g a c. a))
    | inl above_it ↦ elim (Option-cases (prev_of h m)) [
      | inl none_before ↦ absurd (ground (arith, above_it, root-height_of h k none_before))
      | inr (j, e) ↦
          let (known, up) = prev_of-Known j h k e in
          let (y, found, (ky, a, at, all)) =
            lower_lem fuel height j known (ground (arith, le, up)) in
          (
            y,
            ground (arith, above_it, e, found),
            (
              ky,
              above e a,
              inl (ground (arith, at, above_it, up)),
              λ g b c. all g (ground (arith, above_it, c, Ancestor-prev_of g h j e b)) c,
            ),
          )
    ]
  ]

  -- Of two blocks of one height neither is an ancestor of the other.
  level_lem : (a b : Bytes) → Known m b → a ≢ b → height_of a m ≡ height_of b m → ¬ Ancestor m a b
  level_lem a b k other same c = elim (Ancestor-height_of a b k c) [
    | inl e ↦ other e
    | inr lt ↦ omega (arith, lt, same)
  ]

  meet_lem :
      (fuel : ℕ) (a b : Bytes)
      → Known m a
      → Known m b
      → height_of a m ≡ height_of b m
      → height_of a m < fuel
      → (f : Bytes) × (meet m fuel a b ≡ some f) × IsForkOf m a b f
  unfolding meet IsForkOf
  meet_lem zero a b ka kb same le = absurd (omega arith)
  meet_lem (suc fuel) a b ka kb same le = elim (=?_cases a b) [
    | inl (t, e) ↦ (a, ground (arith, t), (self, subst (Ancestor m a) e self, λ g c d. c))
    | inr (n, e) ↦ elim (Option-cases (prev_of a m)) [
      | inl na ↦ elim (Option-cases (prev_of b m)) [
        | inl nb ↦ absurd (e (roots-equal a b ka kb na nb))
        | inr (y, eb) ↦
            absurd (ground (arith, same, root-height_of a ka na, (prev_of-Known y b kb eb).1))
      ]
      | inr (x, ea) ↦ elim (Option-cases (prev_of b m)) [
        | inl nb ↦
            absurd (ground (arith, same, root-height_of b kb nb, (prev_of-Known x a ka ea).1))
        | inr (y, eb) ↦
            let (kx, ux) = prev_of-Known x a ka ea in
            let (ky, uy) = prev_of-Known y b kb eb in
            let (f, found, (fx, fy, all)) =
              meet_lem fuel x y kx ky (omega (arith, same, ux, uy)) (omega (arith, le, ux)) in
            (
              f,
              ground (arith, n, ea, eb, found),
              (
                above ea fx,
                above eb fy,
                λ g c d. elim (Ancestor-prev_of g a x ea c) [
                  | inl same_a ↦
                      absurd (level_lem a b kb e same (subst (λ z. Ancestor m z b) same_a d))
                  | inr cx ↦ elim (Ancestor-prev_of g b y eb d) [
                    | inl same_b ↦ absurd (
                        level_lem b a ka (λ q. e (sym q)) (sym same)
                          (subst (λ z. Ancestor m z a) same_b c))
                    | inr dy ↦ all g cx dy
                  ]
                ],
              ),
            )
      ]
    ]
  ]

  pub Ancestor-trans : (f g h : Bytes) → Ancestor m f g → Ancestor m g h → Ancestor m f h
  Ancestor-trans f g _ c self = c
  Ancestor-trans f g h c (above {k = j} e a) = above e (Ancestor-trans f g j c a)

  -- From two blocks of one height below the two.
  fork_from :
      (a b x y : Bytes)
      → Known m a
      → Known m b
      → lower m (height_of a m) (height_of b m) (some a) ≡ some x
      → LoweredTo a (height_of b m) x
      → lower m (height_of b m) (height_of x m) (some b) ≡ some y
      → LoweredTo b (height_of x m) y
      → (f : Bytes) × (find_fork m (some a) (some b) ≡ fork_at f) × IsForkOf m a b f
  unfolding find_fork LoweredTo IsForkOf
  fork_from a b x y ka kb at_x (kx, ax, hx, all_x) at_y (ky, by, hy, all_y) =
      let not_higher : height_of x m ≤ height_of b m = ground (arith, hx) in
      let same : height_of x m ≡ height_of y m = ground (arith, hy, not_higher) in
      let (f, at_f, (fx, fy, all)) = meet_lem (suc (height_of x m)) x y kx ky same (omega arith) in
      (
        f,
        ground (arith, at_x, at_y, at_f),
        (
          Ancestor-trans f x a fx ax,
          Ancestor-trans f y b fy by,
          λ g c d.
              let in_x : Ancestor m g x = all_x g c (ground (arith, Ancestor-height_of g b kb d)) in
              all g in_x (all_y g d (ground (arith, Ancestor-height_of g x kx in_x))),
        ),
      )

  -- In a tree of block indices with one root, FindFork of two of its blocks ends without reading
  -- the null pointer, and gives their highest common block: both stand on it, and so does it on
  -- each block that both stand on.
  pub find_fork_lem :
      (a b : Bytes)
      → Known m a
      → Known m b
      → (f : Bytes) × (find_fork m (some a) (some b) ≡ fork_at f) × IsForkOf m a b f
  find_fork_lem a b ka kb =
      let (x, at_x, low_x) = lower_lem (height_of a m) (height_of b m) a ka (omega arith) in
      let (y, at_y, low_y) = lower_lem (height_of b m) (height_of x m) b kb (omega arith) in
      fork_from a b x y ka kb at_x low_x at_y low_y
