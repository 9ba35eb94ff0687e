-- ===== src/Cli/LoadPolicy.antt =====
-- cli/check.mjs: `loadPolicy`. `JSON.parse` is a parameter.
use rivid.Common.{Bool, Option, none, some, List, [], ◌∷◌, Bytes, codes, length, if◌then◌else◌}
use rivid.Cli.Columns.{ends_with}
use rivid.Cli.Files.{FileSystem}
use rivid.Cli.PolicyFile.{
  Value, undefined, null, flag, number, text, object, list, Heap, get_field, fields_of, allocate,
  parse_policy_yaml,
}

-- The resolved policy and its path, or the path of a file that cannot be read or parsed.
pub data Loaded : Type 0 where
  loaded : Heap → Value → Option Bytes → Loaded
  failed : Bytes → Loaded

-- `value ?? {}`
abbrev or_object : Heap → Option Bytes → Value → Loaded
or_object heap path undefined = loaded (allocate heap []) (object (length heap)) path
or_object heap path null = loaded (allocate heap []) (object (length heap)) path
or_object heap path (flag b) = loaded heap (flag b) path
or_object heap path (number n) = loaded heap (number n) path
or_object heap path (text s) = loaded heap (text s) path
or_object heap path (object a) = loaded heap (object a) path
or_object heap path (list vs) = loaded heap (list vs) path

-- `parsed?.rivid`
abbrev rivid_of : Heap → Value → Value
rivid_of heap (object a) = get_field (fields_of heap a) (codes "rivid")
rivid_of heap v = undefined

-- `value ?? parsed`
abbrev or_parsed : Value → Value → Value
or_parsed undefined parsed = parsed
or_parsed null parsed = parsed
or_parsed v parsed = v

abbrev config_of : Bytes → Option (Heap × Value) → Loaded
config_of path none = failed path
config_of path (some (heap, parsed)) =
    or_object heap (some path) (or_parsed (rivid_of heap parsed) parsed)

unfoldable pub policy_names : List Bytes
policy_names = codes ".rivid.yml" ∷ codes ".rivid.yaml" ∷ codes ".rivid.json" ∷ []

module _ (fs : FileSystem) (exists : Bytes → Bool)
    (parse_json : Bytes → Option (Heap × Value)) where
  abbrev pub parse_policy : Bytes → Bytes → Option Bytes → Loaded
  parse_policy name path none = failed path
  parse_policy name path (some raw) = config_of path (
      if ends_with (codes ".json") name
      then parse_json raw
      else some (parse_policy_yaml raw, object 0))

  -- The first of the names that exists decides.
  unfoldable pub load_from : Bytes → List Bytes → Loaded
  load_from root [] = loaded ([] ∷ []) (object 0) none
  load_from root (name ∷ names) =
      let path = fs.join root name in
      if exists path then parse_policy name path (fs.read_file path) else load_from root names

  unfoldable pub load_policy : Bytes → Loaded
  unfolding policy_names
  load_policy root = load_from root policy_names
