-- ===== src/Cli/PolicyFile.antt =====
-- cli/check.mjs: `parsePolicyYaml` and `coerce`. Objects that the parser makes are shared
-- by its stack, so they live in a heap.
pub mod References
pub mod Frames
pub mod Stack
use rivid.Common.{
  ℕ, zero, suc, ◌+◌, ◌-◌, Bool, true, false, not, ◌&&◌, ◌||◌, Option, none, some, List, [], ◌∷◌,
  ◌++◌, Bytes, codes, length, get_or, set, leb, ◌==◌, str_eq, if◌then◌else◌,
}
use mathlib.Core.List.{reverse}
use rivid.Js.{ℤ, pos, negsuc, Number}
use rivid.Js.Regex.{Regex, Cursor, seq, star, group, exec, captured, split}
use rivid.Js.Pattern.{
  all_of, some_of, literal, one_of, any_of, space, spaces, word_char, dot, start, end, is_nil,
}
use rivid.Js.Text.{trim, trim_start, starts_with}
use rivid.Cli.Columns.{ends_with}
use rivid.Cli.Extract.{line_break}
use rivid.Cli.Files.{FileSystem}

-- The values of a policy: `object` is a reference into the heap.
mutual
  pub data Value : Type 0 where
    undefined null : Value
    flag : Bool → Value
    number : Number → Value
    text : Bytes → Value
    object : ℕ → Value
    list : Values → Value

  pub data Values : Type 0 where
    nil : Values
    item : Value → Values → Values

abbrev pub push : Values → Value → Values
push nil v = item v nil
push (item w vs) v = item w (push vs v)

-- The entries of an object.
abbrev pub Fields : Type 0
Fields = List (Bytes × Value)

abbrev pub get_field : Fields → Bytes → Value
get_field [] key = undefined
get_field ((k, v) ∷ fields) key = if str_eq k key then v else get_field fields key

abbrev pub set_field : Fields → Bytes → Value → Fields
set_field [] key v = (key, v) ∷ []
set_field ((k, w) ∷ fields) key v =
    if str_eq k key then (k, v) ∷ fields else (k, w) ∷ set_field fields key v

abbrev pub Heap : Type 0
Heap = List Fields

abbrev pub fields_of : Heap → ℕ → Fields
fields_of heap a = get_or heap a []

-- `obj[key] = v`
abbrev pub assign : Heap → ℕ → Bytes → Value → Heap
assign heap a key v = set heap a (set_field (fields_of heap a) key v)

-- `{}` at the next address.
abbrev pub allocate : Heap → Fields → Heap
allocate heap fields = heap ++ (fields ∷ [])

pub record Frame : Type 0 where
  pub indent : ℤ
  pub obj : ℕ
  pub last_key : Option Bytes

-- The stack has its top first.
pub record Parser : Type 0 where
  pub heap : Heap
  pub stack : List Frame

abbrev pub at_most : ℕ → ℤ → Bool
at_most n (pos m) = leb n m
at_most n (negsuc m) = false

-- `while (stack.length > 1 && indent <= stack.at(-1).indent) stack.pop()`
unfoldable pub pop_to : ℕ → List Frame → List Frame
pop_to indent [] = []
pop_to indent (f ∷ []) = f ∷ []
pop_to indent (f ∷ g ∷ frames) =
    if at_most indent f.indent then pop_to indent (g ∷ frames) else f ∷ g ∷ frames

abbrev is_quote : ℕ → Bool
is_quote c = c == b'"' || c == b'\''

abbrev drop_quote : Bytes → Bytes
drop_quote [] = []
drop_quote (c ∷ s) = if is_quote c then s else c ∷ s

abbrev pub scalar : Bytes → Value
scalar s =
    if str_eq s (codes "true")
    then flag true
    else if str_eq s (codes "false")
    then flag false
    else text s

abbrev pub unquoted : Bytes → Bytes
unquoted s = reverse (drop_quote (reverse (drop_quote s)))

unfoldable pub coerce : Bytes → Value
coerce v = scalar (unquoted (trim v))

-- `/^-\s+(.*)$/` and `/^([\w][\w-]*):\s*(.*)$/`
unfoldable pub list_re : Regex
list_re = all_of (start ∷ literal (codes "-") ∷ some_of space ∷ group 1 (star true dot) ∷ end ∷ [])

unfoldable pub key_re : Regex
key_re = all_of (
    start
    ∷ group 1 (seq word_char (star true (any_of (word_char ∷ literal (codes "-") ∷ []))))
    ∷ literal (codes ":")
    ∷ spaces
    ∷ group 2 (star true dot)
    ∷ end
    ∷ [])

abbrev pub keyed : Option Bytes → ℕ → Option (ℕ × Bytes) → Option (ℕ × Bytes)
keyed none a rest = rest
keyed (some key) a rest = some (a, key)

-- The object and the key of the topmost frame that has a key.
unfoldable pub holder : List Frame → Option (ℕ × Bytes)
holder [] = none
holder (f ∷ frames) = keyed f.last_key f.obj (holder frames)

abbrev pub has_no_keys : Fields → Bool
has_no_keys [] = true
has_no_keys (entry ∷ fields) = false

-- The items that the value of a key has or gets: the placeholder `{}` becomes the empty list.
abbrev pub as_items : Heap → Value → Values
as_items heap undefined = item undefined nil
as_items heap null = item null nil
as_items heap (flag b) = item (flag b) nil
as_items heap (number n) = item (number n) nil
as_items heap (text s) = item (text s) nil
as_items heap (object a) = if has_no_keys (fields_of heap a) then nil else item (object a) nil
as_items heap (list vs) = vs

abbrev pub items_at : Heap → ℕ → Bytes → Values
items_at heap a key = as_items heap (get_field (fields_of heap a) key)

-- The value of a list item, or the object with its first key, goes to the list at `obj[key]`.
abbrev pub push_item : Parser → ℕ → ℕ → Bytes → Bytes → Option Cursor → Parser
push_item p indent a key content none =
    let items = items_at p.heap a key in
    record p { heap = assign p.heap a key (list (push items (coerce content))) }
push_item p indent a key content (some kv) =
    let items = items_at p.heap a key in
    let n = length p.heap in
    let grown = allocate p.heap ((captured 1 kv, coerce (captured 2 kv)) ∷ []) in
    record {
      heap = assign grown a key (list (push items (object n)));
      stack = record { indent = pos (indent + 2); obj = n; last_key = none } ∷ p.stack;
    }

unfoldable pub add_item : Parser → ℕ → Bytes → Option (ℕ × Bytes) → Parser
unfolding key_re
add_item p indent content none = p
add_item p indent content (some (a, key)) = push_item p indent a key content (exec key_re content)

-- A line `key:` or `key: value` in the object on top of the stack.
unfoldable pub set_entry : Heap → ℕ → Bytes → Bytes → List Frame → Parser
set_entry heap indent key value [] = record { heap = heap; stack = [] }
set_entry heap indent key value (f ∷ frames) =
    let n = length heap in
    let top : Frame = record f { last_key = some key } in
    if is_nil value
    then record {
      heap = assign (allocate heap []) f.obj key (object n);
      stack = record { indent = pos indent; obj = n; last_key = none } ∷ top ∷ frames;
    }
    else record { heap = assign heap f.obj key (coerce value); stack = top ∷ frames }

abbrev pub entry_match : Parser → ℕ → Option Cursor → Parser
entry_match p indent none = p
entry_match p indent (some kv) = set_entry p.heap indent (captured 1 kv) (captured 2 kv) p.stack

unfoldable pub line_match : Parser → ℕ → Bytes → Option Cursor → Parser
unfolding key_re
line_match p indent line none = entry_match p indent (exec key_re line)
line_match p indent line (some m) = add_item p indent (captured 1 m) (holder p.stack)

unfoldable pub parse_line : Parser → Bytes → Parser
unfolding list_re
parse_line p raw_line =
    let line = trim raw_line in
    let indent = length raw_line - length (trim_start raw_line) in
    let popped : Parser = record p { stack = pop_to indent p.stack } in
    if is_nil line || starts_with (codes "#") line
    then p
    else line_match popped indent line (exec list_re line)

unfoldable pub parse_lines : Parser → List Bytes → Parser
parse_lines p [] = p
parse_lines p (raw_line ∷ lines) = parse_lines (parse_line p raw_line) lines

abbrev pub initial : Parser
initial = record {
  heap = [] ∷ [];
  stack = record { indent = negsuc 0; obj = 0; last_key = none } ∷ [];
}

-- The heap, in which the policy is the object at 0.
unfoldable pub parse_policy_yaml : Bytes → Heap
parse_policy_yaml content = (parse_lines initial (split line_break content)).heap
