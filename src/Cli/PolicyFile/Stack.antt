-- ===== src/Cli/PolicyFile/Stack.antt =====
-- What every line of a policy file preserves, and where a list item's object goes.
use rivid.Common.{
  ℕ, zero, suc, ◌+◌, ◌-◌, ◌<◌, ◌≤◌, ◌≡◌, refl, ◌∙◌, inl, inr, ◌||◌, Option, none, some, List, [],
  ◌∷◌, Bytes, codes, length, length-append, length-set, Bool-cases, arith,
}
use rivid.Js.{pos}
use rivid.Js.Regex.{Cursor, exec, captured, split}
use rivid.Js.Pattern.{is_nil}
use rivid.Js.Text.{trim, trim_start, starts_with}
use rivid.Cli.Extract.{line_break}
use rivid.Cli.PolicyFile.References.{
  IsForward, AreForward, IsFields, IsHeap, AreForward-suc, AreForward-push, IsForward-coerce,
  AreForward-as_items, IsForward-get_field, IsHeap-assign, IsHeap-allocate,
}
use rivid.Cli.PolicyFile.Frames.{
  IsRising, IsStack, IsParser, IsUnder, IsHolder, IsStack-suc, IsDeeper-more, IsRising-cons,
  IsRising-key, pop_to-IsRising, IsHolder-holder, IsParser-of,
}
use rivid.Cli.PolicyFile.{
  Value, object, list, push, Fields, get_field, Heap, fields_of, assign, allocate, Frame, Parser,
  pop_to, coerce, holder, items_at, push_item, add_item, set_entry, entry_match, line_match,
  parse_line, parse_lines, initial, parse_policy_yaml, key_re,
}

length-assign :
    (heap : Heap) (a : ℕ) (key : Bytes) (v : Value) → length (assign heap a key v) ≡ length heap
length-assign heap a key v = length-set heap a _

length-allocate :
    (heap : Heap) (fields : Fields) → length (allocate heap fields) ≡ suc (length heap)
length-allocate heap fields = omega (arith, length-append heap (fields ∷ []))

IsUnder-more :
    (indent : ℕ) (frames : List Frame) → IsUnder indent frames → IsUnder (indent + 2) frames
IsUnder-more indent [] u = u
IsUnder-more indent (f ∷ frames) u = IsDeeper-more indent f.indent u

AreForward-items_at :
    (heap : Heap) (a : ℕ) (key : Bytes)
    → IsHeap (length heap) heap
    → AreForward (length heap) a (items_at heap a key)
AreForward-items_at heap a key h =
    AreForward-as_items (length heap) a heap (get_field (fields_of heap a) key)
      (IsForward-get_field (length heap) a (fields_of heap a) key (h a))

push_item-IsParser :
    (p : Parser) (indent a : ℕ) (key content : Bytes) (o : Option Cursor)
    → IsParser p
    → IsUnder indent p.stack
    → a < length p.heap
    → IsParser (push_item p indent a key content o)
unfolding IsForward
push_item-IsParser p indent a key content none h u k =
    let items = items_at p.heap a key in
    IsParser-of (length p.heap) (assign p.heap a key (list (push items (coerce content)))) p.stack
      (length-assign p.heap a key _)
      (IsHeap-assign (length p.heap) p.heap a key _ h.0 (
        AreForward-push (length p.heap) a items (coerce content)
          (AreForward-items_at p.heap a key h.0) (IsForward-coerce (length p.heap) a content)))
      h.1 h.2
push_item-IsParser p indent a key content (some kv) h u k =
    let n = length p.heap in
    let fields : Fields = (captured 1 kv, coerce (captured 2 kv)) ∷ [] in
    let items = items_at p.heap a key in
    let frame : Frame = record { indent = pos (indent + 2); obj = n; last_key = none } in
    IsParser-of (suc n) (assign (allocate p.heap fields) a key (list (push items (object n))))
      (frame ∷ p.stack)
      (length-assign (allocate p.heap fields) a key _ ∙ length-allocate p.heap fields)
      (IsHeap-assign (suc n) (allocate p.heap fields) a key _
        (IsHeap-allocate p.heap fields h.0 (IsForward-coerce (suc n) n (captured 2 kv), tt))
        (AreForward-push (suc n) a items (object n)
          (AreForward-suc n a items (AreForward-items_at p.heap a key h.0)) (k, omega arith)))
      (omega arith, IsStack-suc n p.stack h.1)
      (IsRising-cons (indent + 2) frame p.stack refl (IsUnder-more indent p.stack u) h.2)

add_item-IsParser :
    (p : Parser) (indent : ℕ) (content : Bytes) (o : Option (ℕ × Bytes))
    → IsParser p
    → IsUnder indent p.stack
    → IsHolder (length p.heap) o
    → IsParser (add_item p indent content o)
unfolding add_item
add_item-IsParser p indent content none h u k = h
add_item-IsParser p indent content (some (a, key)) h u k =
    push_item-IsParser p indent a key content (exec key_re content) h u k

set_entry-IsParser :
    (heap : Heap) (indent : ℕ) (key value : Bytes) (frames : List Frame)
    → IsHeap (length heap) heap
    → IsStack (length heap) frames
    → IsRising frames
    → IsUnder indent frames
    → IsParser (set_entry heap indent key value frames)
unfolding set_entry IsForward
set_entry-IsParser heap indent key value [] h s r u = elim u [ ]
set_entry-IsParser heap indent key value (f ∷ frames) h s r u =
    let n = length heap in
    let top : Frame = record f { last_key = some key } in
    let frame : Frame = record { indent = pos indent; obj = n; last_key = none } in
    elim (Bool-cases (is_nil value)) [
      | inl e ↦ rw e (
          IsParser-of (suc n) (assign (allocate heap []) f.obj key (object n))
            (frame ∷ top ∷ frames)
            (length-assign (allocate heap []) f.obj key _ ∙ length-allocate heap [])
            (IsHeap-assign (suc n) (allocate heap []) f.obj key (object n)
              (IsHeap-allocate heap [] h tt) (s.0, omega arith))
            (omega arith, IsStack-suc n (f ∷ frames) s) (u, IsRising-key f (some key) frames r))
      | inr v ↦ rw v (
          IsParser-of n (assign heap f.obj key (coerce value)) (top ∷ frames)
            (length-assign heap f.obj key _)
            (IsHeap-assign n heap f.obj key (coerce value) h (IsForward-coerce n f.obj value)) s
            (IsRising-key f (some key) frames r))
    ]

entry_match-IsParser :
    (p : Parser) (indent : ℕ) (o : Option Cursor)
    → IsParser p
    → IsUnder indent p.stack
    → IsParser (entry_match p indent o)
entry_match-IsParser p indent none h u = h
entry_match-IsParser p indent (some kv) h u =
    set_entry-IsParser p.heap indent (captured 1 kv) (captured 2 kv) p.stack h.0 h.1 h.2 u

line_match-IsParser :
    (p : Parser) (indent : ℕ) (line : Bytes) (o : Option Cursor)
    → IsParser p
    → IsUnder indent p.stack
    → IsParser (line_match p indent line o)
unfolding line_match
line_match-IsParser p indent line none h u = entry_match-IsParser p indent _ h u
line_match-IsParser p indent line (some m) h u =
    add_item-IsParser p indent (captured 1 m) (holder p.stack) h u
      (IsHolder-holder (length p.heap) p.stack h.1)

-- Every line of a policy file, whatever it is, keeps the parser's state well-formed: the references
-- in an object are to objects that were made later, the frames of the stack stand for objects that
-- are there, their indentations grow strictly from the bottom up, and the bottom is never popped.
pub parse_line-IsParser :
    (p : Parser) (raw_line : Bytes) → IsParser p → IsParser (parse_line p raw_line)
unfolding parse_line
parse_line-IsParser p raw_line h =
    let line = trim raw_line in
    let indent = length raw_line - length (trim_start raw_line) in
    let popped = pop_to-IsRising (length p.heap) indent p.stack h.1 h.2 in
    elim (Bool-cases (is_nil line || starts_with (codes "#") line)) [
      | inl skip ↦ rw skip h
      | inr keep ↦ rw keep (
          line_match-IsParser (record p { stack = pop_to indent p.stack }) indent line _
            (h.0, popped.0, popped.1) popped.2)
    ]

parse_lines-IsParser :
    (p : Parser) (lines : List Bytes) → IsParser p → IsParser (parse_lines p lines)
unfolding parse_lines
parse_lines-IsParser p [] h = h
parse_lines-IsParser p (line ∷ lines) h =
    parse_lines-IsParser (parse_line p line) lines (parse_line-IsParser p line h)

pub initial-IsParser : IsParser initial
initial-IsParser = (initial_fields, (omega arith, tt), refl)
  where
    initial_fields : (a : ℕ) → IsFields 1 a (fields_of ([] ∷ []) a)
    initial_fields zero = tt
    initial_fields (suc a) = tt

-- Whatever the text of a policy file, every reference in the parsed policy is from an object to one
-- that was made later and is there; so the policy is finite and contains no object below itself.
parse_policy_yaml-IsHeap :
    (content : Bytes) → IsHeap (length (parse_policy_yaml content)) (parse_policy_yaml content)
unfolding parse_policy_yaml
parse_policy_yaml-IsHeap content =
    (parse_lines-IsParser initial (split line_break content) initial-IsParser).0

-- A list item with a key, in a state whose stack is not empty, puts an object on the stack, and any
-- later line that is indented by at most two more than the item takes it off again before it is read:
-- the stack is then what it would be without the item. So a key that stands below the first key of
-- an item does not become a key of the item.
push_item-popped :
    (p : Parser) (indent next a : ℕ) (key content : Bytes) (kv : Cursor)
    → IsRising p.stack
    → next ≤ indent + 2
    → pop_to next (push_item p indent a key content (some kv)).stack ≡ pop_to next p.stack
unfolding pop_to
push_item-popped p indent next a key content kv rising near = popped p.stack rising
  where
    popped :
        (frames : List Frame)
        → IsRising frames
        → pop_to next
            (record { indent = pos (indent + 2); obj = length p.heap; last_key = none } ∷ frames)
          ≡ pop_to next frames
    popped [] h = elim h [ ]
    popped (f ∷ frames) h = ground (arith, near)
