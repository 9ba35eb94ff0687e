-- ===== src/Engine/Alphabet/Order.antt =====
-- Where the letters ascend with their digits, texts of one length compare as the numbers they spell.
use rivid.Common.{
  ℕ, zero, suc, refl, ◌/◌, ◌%◌, ◌+◌, ◌*◌, ◌^◌, ◌≤◌, ◌<◌, ◌≡◌, sym, ◌∙◌, ap, [], ◌∷◌, Bytes, length,
  All, arith, ltb, str_lt, str_lt_connected, trichotomy, ltb_irrefl, inl, inr,
}
use rivid.Engine.Error.{ok, bind-eq-ok}
use rivid.Engine.Alphabet.{Alphabet, read, write, read_block, read-cons-eq-ok}
use native.Mathlib.Nat.{mul-le-mul_right, mod-lt}

-- The letters ascend.
abbrev pub IsSorted : Alphabet → Type 0
IsSorted a = (d e : ℕ) → d < e → e < a.base → a.letter d < a.letter e

module _ (a : Alphabet) where
  open a use {base, letter, digit, base_pos, digit-letter, digit-lt}

  -- `c` is the letter of its digit, not another spelling of it.
  abbrev pub IsLetter : ℕ → Type 0
  IsLetter c = (d : ℕ) × (d < base) × (letter d ≡ c)

  pub letter-digit : (c d : ℕ) → IsLetter c → digit c ≡ ok d → letter d ≡ c
  letter-digit c d (e, he, p) h = cc (digit-letter e he, p, h)

  -- What is written is letters.
  pub write-IsLetter : (n v : ℕ) (out : Bytes) → All IsLetter out → All IsLetter (write a n v out)
  unfolding write
  write-IsLetter zero v out h = h
  write-IsLetter (suc n) v out h =
      write-IsLetter n (v / base) (letter (v % base) ∷ out) ((v % base, mod-lt v base_pos, refl), h)

  -- Where a character with a digit is a letter, what can be read is made of letters.
  pub read-IsLetter :
      ((c d : ℕ) → digit c ≡ ok d → IsLetter c)
      → (cs : Bytes) (acc v : ℕ) → read a cs acc ≡ ok v
      → All IsLetter cs
  read-IsLetter strict [] acc v h = tt
  read-IsLetter strict (c ∷ cs) acc v h =
      let (d, hd, hr) = read-cons-eq-ok a c cs acc v h in
      (strict c d hd, read-IsLetter strict cs (acc * base + d) v hr)

  -- Numbers of blocks that begin apart.
  apart :
      (cs ds : Bytes) (x y v w : ℕ)
      → length cs ≡ length ds
      → x < y
      → read a cs x ≡ ok v
      → read a ds y ≡ ok w
      → v < w
  apart cs ds x y v w e h p q =
      let (_, hi) = read_block a cs x v p in
      let (lo, _) = read_block a ds y w q in
      let room = mul-le-mul_right (base ^ length cs) h in
      let same : y * base ^ length cs ≤ w = rw e lo in omega (arith, room, same, hi)

module _ (a : Alphabet) (sorted : IsSorted a) where
  open a use {base, letter, digit, digit-letter, digit-lt}

  pub str_lt-read :
      (cs ds : Bytes) (acc v w : ℕ)
      → length cs ≡ length ds
      → All (IsLetter a) cs
      → All (IsLetter a) ds
      → read a cs acc ≡ ok v
      → read a ds acc ≡ ok w
      → str_lt cs ds ≡ ltb v w
  unfolding read
  str_lt-read [] [] acc v w e hc hd p q = ground arith
  str_lt-read [] (d ∷ ds) acc v w e hc hd p q = absurd (omega arith)
  str_lt-read (c ∷ cs) [] acc v w e hc hd p q = absurd (omega arith)
  str_lt-read (c ∷ cs) (d ∷ ds) acc v w e hc hd p q =
      let (x, hx, px) = bind-eq-ok (digit c) _ p in
      let (y, hy, py) = bind-eq-ok (digit d) _ q in
      let cx = letter-digit a c x hc.0 hx in
      let dy = letter-digit a d y hd.0 hy in
      let en : length cs ≡ length ds = omega arith in
      elim (trichotomy x y) [
        | inl h ↦ ground (
          arith,
          cx,
          dy,
          sorted x y h (digit-lt d y hy),
          apart a cs ds _ _ v w en (omega arith) px py,
        )
        | inr (inl h) ↦ ground (
          arith,
          cx,
          dy,
          ap letter h,
          str_lt-read cs ds (acc * base + x) v w en hc.1 hd.1 px
              (ap (λ t. read a ds (acc * base + t)) h ∙ py),
        )
        | inr (inr h) ↦ ground (
          arith,
          cx,
          dy,
          sorted y x h (digit-lt c x hx),
          apart a ds cs _ _ w v (sym en) (omega arith) py px,
        )
      ]

  -- Texts of one length that spell one number are one text.
  pub read_injective :
      (cs ds : Bytes) (acc v : ℕ)
      → length cs ≡ length ds
      → All (IsLetter a) cs
      → All (IsLetter a) ds
      → read a cs acc ≡ ok v
      → read a ds acc ≡ ok v
      → cs ≡ ds
  read_injective cs ds acc v e hc hd p q =
      str_lt_connected cs ds (str_lt-read cs ds acc v v e hc hd p q ∙ ltb_irrefl v)
        (str_lt-read ds cs acc v v (sym e) hd hc q p ∙ ltb_irrefl v)
