-- ===== src/Engine/Rng/Pool.antt =====
-- The pool hands out each word of each filling once, in order.
use rivid.Common.{
  ℕ, zero, suc, ◌+◌, ◌≤◌, ◌<◌, ◌≡◌, refl, ap, sym, ◌∙◌, inl, inr, List, [], ◌∷◌, ◌++◌, length,
  get_or, take, drop, ◌==◌, Bool-cases, arith,
}
use rivid.Engine.Rng.{System, EntropyPool, empty_pool, next_pooled}

drop-all : (k : ℕ) (xs : List ℕ) → k ≡ length xs → drop k xs ≡ []
drop-all zero [] e = refl
drop-all zero (x ∷ xs) e = absurd (omega (arith, e))
drop-all (suc k) [] e = refl
drop-all (suc k) (x ∷ xs) e = drop-all k xs (omega (arith, e))

drop-get_or : (k : ℕ) (xs : List ℕ) → k < length xs → drop k xs ≡ get_or xs k 0 ∷ drop (k + 1) xs
drop-get_or k [] e = absurd (omega (arith, e))
drop-get_or zero (x ∷ xs) e = refl
drop-get_or (suc k) (x ∷ xs) e =
    let next : suc k + 1 ≡ suc (k + 1) = omega arith in
    drop-get_or k xs (omega (arith, e)) ∙ ap (λ t. get_or xs k 0 ∷ drop t (x ∷ xs)) (sym next)

module _ (system : System) where
  open system use {world, fill}

  -- The words of `n` draws in turn.
  unfoldable pub draws : ℕ → EntropyPool → world.State → List ℕ
  draws zero p w = []
  draws (suc n) p w = let (v, q, w') = next_pooled system p w in v ∷ draws n q w'

  -- The words of `n` fillings in turn.
  unfoldable pub fillings : ℕ → world.State → List ℕ
  fillings zero w = []
  fillings (suc n) w = (fill w).0 ++ fillings n (fill w).1

  draws-rest :
      (n m : ℕ) (p : EntropyPool) (w : world.State)
      → n ≤ m
      → length p.words ≡ 32
      → p.idx ≤ 32
      → draws n p w ≡ take n (drop p.idx p.words ++ fillings m w)
  unfolding draws next_pooled fillings
  draws-rest zero m p w h l i = refl
  draws-rest (suc n) zero p w h l i = absurd (omega arith)
  draws-rest (suc n) (suc m) p w h l i = elim (Bool-cases (p.idx == length p.words)) [
    | inl spent ↦
        let full = system.length-fill w in
        let rest =
          draws-rest n m (record { idx = 0 + 1; words = (fill w).0 }) (fill w).1 (omega arith) full
            (omega arith) in
        let first : (fill w).0 ≡ get_or (fill w).0 0 0 ∷ drop (0 + 1) (fill w).0 =
          drop-get_or 0 (fill w).0 (omega (arith, full)) in
        rw (spent, drop-all p.idx p.words (ground (arith, spent)), rest)
          (ap (λ t. take (suc n) (t ++ fillings m (fill w).1)) (sym first))
    | inr left ↦
        let inside : p.idx < length p.words = ground (arith, left, l, i) in
        let rest =
          draws-rest n (suc m) (record { idx = p.idx + 1; words = p.words }) w (omega arith) l
            (omega (arith, inside, l)) in
        rw (left, rest, drop-get_or p.idx p.words inside) refl
  ]

  -- The words that a new thread draws are those of the fillings, each once and in their order.
  pub draws-fillings : (n : ℕ) (w : world.State) → draws n empty_pool w ≡ take n (fillings n w)
  draws-fillings n w = draws-rest n n empty_pool w (omega arith) refl (omega arith)
