-- ===== src/Binding/Buffers/Written.antt =====
-- src/lib.rs: what `decodeMany` and `decodeInto` write, against `decode`.
use rivid.Common.{
  ℕ, zero, suc, ◌+◌, ◌*◌, ◌≤◌, ◌≡◌, refl, ap, sym, ◌∙◌, inl, inr, List, [], ◌∷◌, ◌++◌, Bytes,
  length, length-append, length-drop, set, map, drop, replicate, ltb, ◌==◌, if◌then◌else◌,
  Bool-cases, arith,
}
use mathlib.Core.List.{append_assoc, append-nil}
use rivid.Engine.Error.{invalid_length, Result-cases}
use rivid.Engine.Bytes.{to_be_bytes, length-to_be_bytes}
use rivid.Engine.Crockford.{decode_chars}
use rivid.Engine.Ulid
use rivid.Js.{pos, Host, Outcome, returns, throws, native, native_count, ◌>>=◌}
use rivid.Binding
use rivid.Binding.Source.{max_batch}
use rivid.Binding.Buffers.{copy_from_slice, decode_into, decode_all, decode_many}

set-append :
    (done rest : Bytes) (x b i : ℕ)
    → length done ≡ i
    → set (done ++ (x ∷ rest)) i b ≡ (done ++ (b ∷ [])) ++ rest
set-append [] rest x b zero h = refl
set-append [] rest x b (suc i) h = absurd (omega (arith, h))
set-append (c ∷ done) rest x b zero h = absurd (omega (arith, h))
set-append (c ∷ done) rest x b (suc i) h =
    ap (λ t. c ∷ t) (set-append done rest x b i (omega (arith, h)))

-- A copy behind `done` puts its bytes there, and leaves what comes after them.
copy-append :
    (bytes done rest : Bytes) (start : ℕ)
    → length done ≡ start
    → length bytes ≤ length rest
    → copy_from_slice (done ++ rest) start bytes ≡ (done ++ bytes) ++ drop (length bytes) rest
copy-append [] done rest start h k = ap (λ t. t ++ rest) (sym (append-nil done))
copy-append (b ∷ bytes) done [] start h k = absurd (omega (arith, k))
copy-append (b ∷ bytes) done (x ∷ rest) start h k =
    ap (λ t. copy_from_slice t (start + 1) bytes) (set-append done rest x b start h)
    ∙ copy-append bytes (done ++ (b ∷ [])) rest (start + 1)
        (omega (arith, h, length-append done (b ∷ []))) (omega (arith, k))
    ∙ ap (λ t. t ++ drop (length bytes) rest) (append_assoc done (b ∷ []) bytes)

-- The results of calls in turn, joined, or the first error.
abbrev pub joined : List (Outcome Bytes) → Outcome Bytes
joined [] = returns []
joined (o ∷ os) = do bytes ← o; rest ← joined os; returns (bytes ++ rest)

behind : Bytes → Bytes → Outcome Bytes → Outcome Bytes
behind done block o = o >>= λ rest. returns ((done ++ block) ++ rest)

behind-joined :
    (done block : Bytes) (o : Outcome Bytes)
    → behind done block o
      ≡ ((o >>= λ rest. returns (block ++ rest)) >>= λ bytes. returns (done ++ bytes))
unfolding behind
behind-joined done block (returns rest) = ap returns (append_assoc done block rest)
behind-joined done block (throws e) = refl

module _ (host : Host) where
  -- With the bytes of the first `i` identifiers in front, the loop puts those of the others behind.
  decode_all-joined :
      (ids : List Bytes) (i : ℕ) (done rest : Bytes)
      → length done ≡ i * 16
      → length rest ≡ length ids * 16
      → decode_all host i ids (done ++ rest)
        ≡ (joined (map (Binding.decode host) ids) >>= λ bytes. returns (done ++ bytes))
  unfolding decode_all Binding.decode Ulid.decode behind
  decode_all-joined [] i done [] h k = refl
  decode_all-joined [] i done (c ∷ rest) h k = absurd (omega (arith, k))
  decode_all-joined (id ∷ ids) i done rest h k = elim (Result-cases (decode_chars (host.utf8 id))) [
    | inr (x, e) ↦ rw e refl
    | inl (v, e) ↦
        let block = to_be_bytes 16 v [] in
        let wide : length block ≡ 16 = length-to_be_bytes 16 v in
        let room : length block ≤ length rest = omega (arith, wide, k) in
        let next =
          decode_all-joined ids (i + 1) (done ++ block) (drop (length block) rest)
            (omega (arith, length-append done block, wide, h))
            (omega (arith, length-drop (length block) rest, wide, k)) in
        rw e (
          ap (decode_all host (i + 1) ids) (copy-append block done rest (i * 16) h room)
          ∙ next
          ∙ behind-joined done block (joined (map (Binding.decode host) ids)))
  ]

  unit_bind : (o : Outcome Bytes) → (o >>= λ bytes. returns ([] ++ bytes)) ≡ o
  unit_bind (returns bytes) = refl
  unit_bind (throws e) = refl

  copy_whole :
      (v : ℕ) (out : Bytes)
      → length out ≡ 16
      → copy_from_slice out 0 (to_be_bytes 16 v []) ≡ to_be_bytes 16 v []
  copy_whole v out h =
      let block = to_be_bytes 16 v [] in
      let wide : length block ≡ 16 = length-to_be_bytes 16 v in
      let none_left : drop (length block) out ≡ [] =
        empty _ (omega (arith, length-drop (length block) out, wide, h)) in
      copy-append block [] out 0 refl (omega (arith, wide, h))
      ∙ ap (λ t. block ++ t) none_left
      ∙ append-nil block
    where
      empty : (t : Bytes) → length t ≡ 0 → t ≡ []
      empty [] e = refl
      empty (c ∷ t) e = absurd (omega (arith, e))

  -- `decodeMany` of at most the largest batch writes, identifier after identifier at its place in one
  -- buffer, the bytes that `decode` returns for each, and returns these joined, with nothing left of
  -- the zeros the buffer began with; or it throws the first error that `decode` throws. Of more it
  -- throws at once. `decodeInto` with an array of 16 bytes leaves there exactly what `decode` returns,
  -- or throws as `decode` does and leaves the array alone; with any other array it throws and leaves
  -- it alone.
  pub decode_many-decode :
      (ids : List Bytes) (id out : Bytes)
      → (decode_many host ids ≡ (
          if ltb max_batch (length ids)
          then throws (native_count (pos (length ids)))
          else joined (map (Binding.decode host) ids)))
        × (decode_into host id out ≡ (
            if length out == 16
            then (elim (Binding.decode host id) [
              | throws e ↦ (throws e, out)
              | returns bytes ↦ (returns tt, bytes)
            ])
            else (throws (native (invalid_length 16 (length out))), out)))
  unfolding decode_many decode_into Binding.decode Ulid.decode
  decode_many-decode ids id out = (
    rw
        (decode_all-joined ids 0 [] (replicate (length ids * 16) 0) refl (length_zeros _)
          ∙ unit_bind (joined (map (Binding.decode host) ids)))
        refl,
    elim (Bool-cases (length out == 16)) [
      | inr other ↦ rw other refl
      | inl exact ↦ rw exact (elim (Result-cases (decode_chars (host.utf8 id))) [
        | inl (v, e) ↦ rw (e, copy_whole v out (ground (arith, exact))) refl
        | inr (x, e) ↦ rw e refl
      ])
    ],
  )
    where
      length_zeros : (n : ℕ) → length (replicate {A = ℕ} n 0) ≡ n
      length_zeros zero = refl
      length_zeros (suc n) = ap suc (length_zeros n)
