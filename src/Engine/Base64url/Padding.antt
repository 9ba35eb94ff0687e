-- ===== src/Engine/Base64url/Padding.antt =====
-- The padding that `strip` takes off the end of a text.
use rivid.Common.{
  ℕ, zero, suc, ◌+◌, ◌<◌, ◌≤◌, ◌≡◌, refl, ap, ap₂, sym, ◌∙◌, inl, inr, false, [], ◌∷◌, ◌++◌, Bytes,
  length, All, All-get_or, get_or, take, replicate, ◌==◌, Bool-cases, arith,
}
use mathlib.Core.List.{append_assoc, append-nil}
use rivid.Engine.Base64url.{strip}
use rivid.Engine.Base64url.RoundTrip.{IsUnpadded}

abbrev pub padding : ℕ → Bytes
padding n = replicate n b'='

pub length-padding : (n : ℕ) → length (padding n) ≡ n
length-padding zero = refl
length-padding (suc n) = ap suc (length-padding n)

take-suc : (i : ℕ) (s : Bytes) → i < length s → take (suc i) s ≡ take i s ++ (get_or s i 0 ∷ [])
take-suc i [] h = absurd (omega arith)
take-suc zero (c ∷ s) h = refl
take-suc (suc i) (c ∷ s) h = ap (λ t. c ∷ t) (take-suc i s (omega (arith, h)))

padding-snoc : (n : ℕ) → padding n ++ (b'=' ∷ []) ≡ padding (suc n)
padding-snoc zero = refl
padding-snoc (suc n) = ap (λ t. b'=' ∷ t) (padding-snoc n)

-- What `strip` takes off is padding, as much as it may be at most.
pub strip-padding :
    (left : ℕ) (s : Bytes) (end : ℕ)
    → end ≤ length s
    → (pad : ℕ) × (pad ≤ left)
      × (strip left s end + pad ≡ end)
      × (take end s ≡ take (strip left s end) s ++ padding pad)
unfolding strip
strip-padding zero s end h = (0, omega arith, omega arith, sym (append-nil (take end s)))
strip-padding (suc left) s zero h = (0, omega arith, omega arith, refl)
strip-padding (suc left) s (suc end) h = elim (Bool-cases (get_or s end 0 == b'=')) [
  | inr other ↦ rw other (0, omega arith, omega arith, sym (append-nil (take (suc end) s)))
  | inl equals ↦
      let (pad, few, whole, same) = strip-padding left s end (omega (arith, h)) in
      let last : get_or s end 0 ≡ b'=' = ground (arith, equals) in
      let longer : take (suc end) s ≡ take (strip left s end) s ++ padding (suc pad) =
        take-suc end s (omega (arith, h))
        ∙ ap₂ (λ t c. t ++ (c ∷ [])) same last
        ∙ append_assoc (take (strip left s end) s) (padding pad) (b'=' ∷ [])
        ∙ ap (λ t. take (strip left s end) s ++ t) (padding-snoc pad) in
      rw equals (suc pad, omega (arith, few), omega (arith, whole), longer)
]

get_or-padding :
    (t : Bytes) (pad more : ℕ) → pad < more → get_or (t ++ padding more) (length t + pad) 0 ≡ b'='
get_or-padding [] zero (suc more) h = refl
get_or-padding [] pad zero h = absurd (omega (arith, h))
get_or-padding [] (suc pad) (suc more) h =
    let same : 0 + suc pad ≡ suc (0 + pad) = omega arith in
    ap (λ i. get_or (padding (suc more)) i 0) same ∙ get_or-padding [] pad more (omega (arith, h))
get_or-padding (c ∷ t) pad more h =
    let same : suc (length t) + pad ≡ suc (length t + pad) = omega arith in
    ap (λ i. get_or (c ∷ (t ++ padding more)) i 0) same ∙ get_or-padding t pad more h

get_or-front : (t u : Bytes) (i : ℕ) → i < length t → get_or (t ++ u) i 0 ≡ get_or t i 0
get_or-front [] u i h = absurd (omega (arith, h))
get_or-front (c ∷ t) u zero h = refl
get_or-front (c ∷ t) u (suc i) h = get_or-front t u i (omega (arith, h))

strip-letters :
    (left : ℕ) (t u : Bytes) (end : ℕ)
    → All IsUnpadded t
    → end ≡ length t
    → strip left (t ++ u) end ≡ end
unfolding strip
strip-letters zero t u end h e = refl
strip-letters (suc left) t u zero h e = refl
strip-letters (suc left) t u (suc end) h e =
    let letter : get_or (t ++ u) end 0 ≡ get_or t end 0 = get_or-front t u end (omega (arith, e)) in
    let other : (get_or t end 0 == b'=') ≡ false = All-get_or IsUnpadded t end 0 refl h in
    rw (letter, other) refl

-- Padding behind a text without any is taken off.
pub strip-append :
    (left : ℕ) (t : Bytes) (pad more end : ℕ)
    → All IsUnpadded t
    → pad ≤ left
    → pad ≤ more
    → end ≡ length t + pad
    → strip left (t ++ padding more) end ≡ length t
unfolding strip
strip-append left t zero more end h few room e =
    strip-letters left t (padding more) end h (omega (arith, e)) ∙ omega (arith, e)
strip-append zero t (suc pad) more end h few room e = absurd (omega (arith, few))
strip-append (suc left) t (suc pad) more zero h few room e = absurd (omega (arith, e))
strip-append (suc left) t (suc pad) more (suc end) h few room e =
    let place : end ≡ length t + pad = omega (arith, e) in
    let equals : get_or (t ++ padding more) end 0 ≡ b'=' =
      ap (λ i. get_or (t ++ padding more) i 0) place
      ∙ get_or-padding t pad more (omega (arith, room)) in
    rw equals (strip-append left t pad more end h (omega (arith, few)) (omega (arith, room)) place)

pub take-append : (t u : Bytes) → take (length t) (t ++ u) ≡ t
take-append [] u = refl
take-append (c ∷ t) u = ap (λ x. c ∷ x) (take-append t u)
