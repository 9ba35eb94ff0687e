-- ===== src/Cli/PolicyFile/References.antt =====
-- The references in the heap of the policy parser, and its stack.
use rivid.Common.{
  ℕ, suc, ◌<◌, inl, inr, [], ◌∷◌, Bytes, codes, length, All, get_or-set, get_or-append, str_eq,
  Bool-cases, arith,
}
use rivid.Js.Text.{trim}
use rivid.Cli.PolicyFile.{
  Value, undefined, null, flag, number, text, object, list, Values, nil, item, push, Fields,
  get_field, set_field, Heap, fields_of, assign, allocate, coerce, scalar, unquoted, has_no_keys,
  as_items,
}

-- A reference in a value of the object at `a` is to an object that was made later, among `size`.
unfoldable mutual
  pub IsForward : ℕ → ℕ → Value → Type 0
  IsForward size a undefined = Unit
  IsForward size a null = Unit
  IsForward size a (flag b) = Unit
  IsForward size a (number n) = Unit
  IsForward size a (text s) = Unit
  IsForward size a (object b) = (a < b) × (b < size)
  IsForward size a (list vs) = AreForward size a vs

  pub AreForward : ℕ → ℕ → Values → Type 0
  AreForward size a nil = Unit
  AreForward size a (item v vs) = IsForward size a v × AreForward size a vs

abbrev pub IsFields : ℕ → ℕ → Fields → Type 0
IsFields size a = All (λ (entry : Bytes × Value). IsForward size a entry.1)

abbrev pub IsHeap : ℕ → Heap → Type 0
IsHeap size heap = (a : ℕ) → IsFields size a (fields_of heap a)

mutual
  unfolding IsForward

  pub IsForward-suc : (size a : ℕ) (v : Value) → IsForward size a v → IsForward (suc size) a v
  IsForward-suc size a undefined h = tt
  IsForward-suc size a null h = tt
  IsForward-suc size a (flag b) h = tt
  IsForward-suc size a (number n) h = tt
  IsForward-suc size a (text s) h = tt
  IsForward-suc size a (object b) h = (h.0, omega (arith, h.1))
  IsForward-suc size a (list vs) h = AreForward-suc size a vs h

  pub AreForward-suc :
      (size a : ℕ) (vs : Values) → AreForward size a vs → AreForward (suc size) a vs
  AreForward-suc size a nil h = tt
  AreForward-suc size a (item v vs) h = (IsForward-suc size a v h.0, AreForward-suc size a vs h.1)

IsFields-suc :
    (size a : ℕ) (fields : Fields) → IsFields size a fields → IsFields (suc size) a fields
IsFields-suc size a [] h = tt
IsFields-suc size a ((k, v) ∷ fields) h =
    (IsForward-suc size a v h.0, IsFields-suc size a fields h.1)

pub IsForward-get_field :
    (size a : ℕ) (fields : Fields) (key : Bytes)
    → IsFields size a fields
    → IsForward size a (get_field fields key)
unfolding IsForward
IsForward-get_field size a [] key h = tt
IsForward-get_field size a ((k, v) ∷ fields) key h = elim (Bool-cases (str_eq k key)) [
  | inl e ↦ rw e h.0
  | inr n ↦ rw n (IsForward-get_field size a fields key h.1)
]

IsFields-set_field :
    (size a : ℕ) (fields : Fields) (key : Bytes) (v : Value)
    → IsFields size a fields
    → IsForward size a v
    → IsFields size a (set_field fields key v)
IsFields-set_field size a [] key v h k = (k, tt)
IsFields-set_field size a ((name, w) ∷ fields) key v h k = elim (Bool-cases (str_eq name key)) [
  | inl e ↦ rw e (k, h.1)
  | inr n ↦ rw n (h.0, IsFields-set_field size a fields key v h.1 k)
]

pub AreForward-push :
    (size a : ℕ) (vs : Values) (v : Value)
    → AreForward size a vs
    → IsForward size a v
    → AreForward size a (push vs v)
unfolding IsForward
AreForward-push size a nil v h k = (k, tt)
AreForward-push size a (item w vs) v h k = (h.0, AreForward-push size a vs v h.1 k)

IsForward-scalar : (size a : ℕ) (s : Bytes) → IsForward size a (scalar s)
unfolding IsForward
IsForward-scalar size a s = elim (Bool-cases (str_eq s (codes "true"))) [
  | inl t ↦ rw t tt
  | inr n ↦
      rw n (elim (Bool-cases (str_eq s (codes "false"))) [ inl f ↦ rw f tt | inr m ↦ rw m tt ])
]

pub IsForward-coerce : (size a : ℕ) (s : Bytes) → IsForward size a (coerce s)
unfolding coerce
IsForward-coerce size a s = IsForward-scalar size a (unquoted (trim s))

pub AreForward-as_items :
    (size a : ℕ) (heap : Heap) (v : Value)
    → IsForward size a v
    → AreForward size a (as_items heap v)
unfolding IsForward
AreForward-as_items size a heap undefined h = (tt, tt)
AreForward-as_items size a heap null h = (tt, tt)
AreForward-as_items size a heap (flag b) h = (tt, tt)
AreForward-as_items size a heap (number n) h = (tt, tt)
AreForward-as_items size a heap (text s) h = (tt, tt)
AreForward-as_items size a heap (object b) h = elim (Bool-cases (has_no_keys (fields_of heap b))) [
  | inl e ↦ rw e tt
  | inr n ↦ rw n (h, tt)
]
AreForward-as_items size a heap (list vs) h = h

IsFields-fields_of :
    (size : ℕ) (heap : Heap) (a : ℕ) → IsHeap size heap → IsFields size a (fields_of heap a)
IsFields-fields_of size heap a h = h a

pub IsHeap-assign :
    (size : ℕ) (heap : Heap) (a : ℕ) (key : Bytes) (v : Value)
    → IsHeap size heap
    → IsForward size a v
    → IsHeap size (assign heap a key v)
IsHeap-assign size heap a key v h k =
    get_or-set (IsFields size) heap a (set_field (fields_of heap a) key v) []
      (IsFields-set_field size a (fields_of heap a) key v (h a) k) h

pub IsHeap-allocate :
    (heap : Heap) (fields : Fields)
    → IsHeap (length heap) heap
    → IsFields (suc (length heap)) (length heap) fields
    → IsHeap (suc (length heap)) (allocate heap fields)
IsHeap-allocate heap fields h k =
    get_or-append (IsFields (suc (length heap))) heap fields [] k
      (λ a. IsFields-suc (length heap) a (fields_of heap a) (h a))
