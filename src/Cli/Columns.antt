-- ===== src/Cli/Columns.antt =====
-- cli/check.mjs: columns, policies and findings, and the tests on texts that the audit makes.
use rivid.Common.{
  ℕ, ◌-◌, Bool, true, false, ◌&&◌, ◌||◌, Option, none, some, List, [], ◌∷◌, Bytes, codes, length,
  drop, leb, str_eq,
}
pub use rivid.Js.Text.{starts_with, contains, ascii_lower}

-- A column that an extractor found; `fk` is the table, if it is known, and the column it refers to; `width` is in bytes.
pub record Column : Type 0 where
  pub table : Bytes
  pub column : Bytes
  pub rep : Bytes
  pub width : Option ℕ
  pub pk : Bool
  pub unique : Bool
  pub fk : Option (Option Bytes × Bytes)
  pub file : Bytes

-- The resolved policy; an entry that is not given is `none`.
pub record Policy : Type 0 where
  pub database : Option Bytes
  pub public_ids : Option Bytes
  pub events : Option Bytes
  pub idempotency : Option Bytes
  pub allow : List (Bytes × Bytes)

pub data Severity : Type 0 where
  error warning : Severity

pub data Rule : Type 0 where
  uuid_as_text unbounded_text_id ulid_as_uuid fk_mismatch pk_drift : Rule

-- A finding without its text.
pub record Finding : Type 0 where
  pub severity : Severity
  pub rule : Rule
  pub column : Option Column

abbrev pub ends_with : Bytes → Bytes → Bool
ends_with p s = leb (length p) (length s) && str_eq (drop (length s - length p) s) p

unfoldable pub is_uuid_like : Bytes → Bool
is_uuid_like rep =
    str_eq rep (codes "uuid") || str_eq rep (codes "char(36)") || str_eq rep (codes "varchar(36)")

unfoldable pub is_text_like : Bytes → Bool
is_text_like rep =
    str_eq rep (codes "text")
    || starts_with (codes "char(") rep
    || starts_with (codes "varchar(") rep

-- `/(^|_)public_?id$/.test(name)`
unfoldable pub is_public_id : Bytes → Bool
is_public_id name =
    str_eq name (codes "public_id")
    || str_eq name (codes "publicid")
    || ends_with (codes "_public_id") name
    || ends_with (codes "_publicid") name

abbrev pub or_else : Option Bytes → Bytes → Bytes
or_else none d = d
or_else (some a) d = a

-- An entry that is there and not the empty string.
abbrev pub is_given : Option Bytes → Bool
is_given none = false
is_given (some []) = false
is_given (some (c ∷ s)) = true

abbrev pub is_family : Option Bytes → Bytes → Bool
is_family none f = false
is_family (some a) f = str_eq a f

abbrev pub same_family : Option Bytes → Option Bytes → Bool
same_family none none = true
same_family none (some b) = false
same_family (some a) none = false
same_family (some a) (some b) = str_eq a b
