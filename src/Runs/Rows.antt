-- ===== src/Runs/Rows.antt =====
-- A batch of rows with a generator that counts.
use rivid.Common.{ℕ, zero, suc, ◌+◌, ◌≡◌, refl, ap, List, [], ◌∷◌, Bytes, codes, length}
use rivid.Js.{returns}
use rivid.Binding.Source.{Source}
use rivid.Prisma.{null, text, other, Heap, missing_rows, ulid, fill_ids, assign_ids, assign_field}

-- `n` identifiers, each the number of those before it.
abbrev counted : ℕ → ℕ → List Bytes
counted zero s = []
counted (suc n) s = (s ∷ []) ∷ counted n (s + 1)

pub length-counted : (n s : ℕ) → length (counted n s) ≡ n
length-counted zero s = refl
length-counted (suc n) s = ap suc (length-counted n (s + 1))

abbrev pub counter : Source
counter = record {
  State = ℕ;
  clock = λ s. 0;
  ulid = λ s. returns (s ∷ [], s + 1);
  monotonic_ulid = λ s. returns (s ∷ [], s + 1);
  uuidv7 = λ s. returns (s ∷ [], s + 1);
  generate_many = λ n s. returns (counted n s, s + n);
  generate_uuidv7_many = λ n s. returns (counted n s, s + n);
  ulid-returns = λ s h. (s ∷ [], s + 1, refl);
  uuidv7-returns = λ s. (s ∷ [], s + 1, refl);
  generate_many-returns = λ n s h. (counted n s, s + n, refl, length-counted n s);
  generate_uuidv7_many-returns = λ n s h. (counted n s, s + n, refl, length-counted n s);
}

abbrev pub id_name : Bytes
id_name = codes "id"

abbrev pub three_rows : Heap
three_rows =
    [] ∷ ((id_name, text (codes "mine")) ∷ []) ∷ ((id_name, null) ∷ (codes "n", other 4) ∷ []) ∷ []

abbrev pub all_three : List ℕ
all_three = 0 ∷ 1 ∷ 2 ∷ []

fill_ids-run :
    fill_ids counter three_rows all_three id_name ulid 7
    ≡ returns (
      2,
      (
        ((id_name, text (7 ∷ [])) ∷ [])
            ∷ ((id_name, text (codes "mine")) ∷ [])
            ∷ ((id_name, text (8 ∷ [])) ∷ (codes "n", other 4) ∷ [])
            ∷ [],
        9,
      ),
    )
unfolding fill_ids missing_rows assign_ids assign_field
fill_ids-run = refl
