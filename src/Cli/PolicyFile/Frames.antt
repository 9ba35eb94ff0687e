-- ===== src/Cli/PolicyFile/Frames.antt =====
-- The stack of the policy parser: its frames rise, and a pop leaves those that a line is under.
use rivid.Common.{
  ℕ, suc, ◌+◌, ◌<◌, ◌≡◌, inl, inr, false, Option, none, some, List, [], ◌∷◌, Bytes, length, All,
  Bool-cases, arith,
}
use rivid.Js.{ℤ, pos, negsuc}
use rivid.Cli.PolicyFile.References.{IsHeap}
use rivid.Cli.PolicyFile.{Heap, Frame, Parser, pop_to, at_most, keyed, holder}

-- An indentation comes after another; the bottom of the stack has -1.
abbrev pub IsDeeper : ℤ → ℤ → Type 0
IsDeeper (pos m) (pos n) = n < m
IsDeeper (pos m) (negsuc n) = Unit
IsDeeper (negsuc m) n = ⊥

-- Each frame is deeper than the one below it, and the bottom is the root's.
abbrev pub IsRising : List Frame → Type 0
IsRising [] = ⊥
IsRising (f ∷ []) = f.indent ≡ negsuc 0
IsRising (f ∷ g ∷ frames) = IsDeeper f.indent g.indent × IsRising (g ∷ frames)

abbrev pub IsStack : ℕ → List Frame → Type 0
IsStack size frames = All (λ (f : Frame). f.obj < size) frames

-- The references of the heap go forward, and the stack is not empty, rises and stands for objects.
abbrev pub IsParser : Parser → Type 0
IsParser p = IsHeap (length p.heap) p.heap × IsStack (length p.heap) p.stack × IsRising p.stack

pub IsStack-suc : (size : ℕ) (frames : List Frame) → IsStack size frames → IsStack (suc size) frames
IsStack-suc size [] h = tt
IsStack-suc size (f ∷ frames) h = (omega (arith, h.0), IsStack-suc size frames h.1)

IsDeeper-at_most : (n : ℕ) (z : ℤ) → at_most n z ≡ false → IsDeeper (pos n) z
IsDeeper-at_most n (pos m) h = ground arith
IsDeeper-at_most n (negsuc m) h = tt

pub IsDeeper-more : (n : ℕ) (z : ℤ) → IsDeeper (pos n) z → IsDeeper (pos (n + 2)) z
IsDeeper-more n (pos m) h = omega (arith, h)
IsDeeper-more n (negsuc m) h = tt

-- The top of the stack is less deep than the indentation.
abbrev pub IsUnder : ℕ → List Frame → Type 0
IsUnder indent [] = ⊥
IsUnder indent (f ∷ frames) = IsDeeper (pos indent) f.indent

pub IsRising-cons :
    (indent : ℕ) (f : Frame) (frames : List Frame)
    → f.indent ≡ pos indent
    → IsUnder indent frames
    → IsRising frames
    → IsRising (f ∷ frames)
IsRising-cons indent f [] e u h = elim u [ ]
IsRising-cons indent f (g ∷ frames) e u h = (rw e u, h)

pub IsRising-key :
    (f : Frame) (o : Option Bytes) (frames : List Frame)
    → IsRising (f ∷ frames)
    → IsRising (record f { last_key = o } ∷ frames)
IsRising-key f o [] h = h
IsRising-key f o (g ∷ frames) h = h

module _ (size : ℕ) where
  pub pop_to-IsRising :
      (indent : ℕ) (frames : List Frame)
      → IsStack size frames
      → IsRising frames
      → IsStack size (pop_to indent frames)
        × IsRising (pop_to indent frames)
        × IsUnder indent (pop_to indent frames)
  unfolding pop_to
  pop_to-IsRising indent [] s h = elim h [ ]
  pop_to-IsRising indent (f ∷ []) s h = (s, h, rw h tt)
  pop_to-IsRising indent (f ∷ g ∷ frames) s h = elim (Bool-cases (at_most indent f.indent)) [
    | inl e ↦ rw e (pop_to-IsRising indent (g ∷ frames) s.1 h.1)
    | inr n ↦ rw n (s, h, IsDeeper-at_most indent f.indent n)
  ]

  abbrev pub IsHolder : Option (ℕ × Bytes) → Type 0
  IsHolder none = Unit
  IsHolder (some (a, key)) = a < size

  IsHolder-keyed :
      (o : Option Bytes) (a : ℕ) (rest : Option (ℕ × Bytes))
      → a < size
      → IsHolder rest
      → IsHolder (keyed o a rest)
  IsHolder-keyed none a rest h k = k
  IsHolder-keyed (some key) a rest h k = h

  pub IsHolder-holder : (frames : List Frame) → IsStack size frames → IsHolder (holder frames)
  unfolding holder
  IsHolder-holder [] s = tt
  IsHolder-holder (f ∷ frames) s =
      IsHolder-keyed f.last_key f.obj (holder frames) s.0 (IsHolder-holder frames s.1)

pub IsParser-of :
    (size : ℕ) (heap : Heap) (stack : List Frame)
    → length heap ≡ size
    → IsHeap size heap
    → IsStack size stack
    → IsRising stack
    → IsParser (record { heap = heap; stack = stack })
IsParser-of size heap stack e h s r = rw e (h, s, r)
