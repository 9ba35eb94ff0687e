-- ===== src/Runs/Audit.antt =====
-- Two tables, of which one refers to the other by a key of another representation.
use rivid.Common.{◌≡◌, refl, true, false, none, some, List, [], ◌∷◌, Bytes, codes, if◌then◌else◌}
use rivid.Cli.Columns.{Column, Policy, is_text_like, is_uuid_like}
use rivid.Cli.Check.{
  findings, classify, allowed, target_of, analyze, collect, check_column, check_fk, check_drift,
}
use rivid.Cli.RunCheck.{Disk, run_check}
use rivid.Cli.Check.Findings.{any, is_error_column}
use rivid.Cli.RunCheck.ExitCode.{run_check-errors}
use rivid.Cli.Check.Policies.{no_policy}

abbrev user_id : Column
user_id = record {
  table = codes "users";
  column = codes "id";
  rep = codes "uuid";
  width = some 16;
  pk = true;
  unique = false;
  fk = none;
  file = codes "schema.sql";
}

abbrev order_owner : Column
order_owner = record {
  table = codes "orders";
  column = codes "user_id";
  rep = codes "text";
  width = none;
  pk = false;
  unique = false;
  fk = some (some (codes "users"), codes "id");
  file = codes "schema.sql";
}

abbrev uuid_policy : Policy
uuid_policy = record {
  database = some (codes "uuidv7");
  public_ids = none;
  events = none;
  idempotency = none;
  allow = (codes "orders", codes "*") ∷ [];
}

abbrev two_tables : List Column
two_tables = user_id ∷ order_owner ∷ []

abbrev schema_disk : Policy → Disk
schema_disk policy = record {
  load_policy = λ path. some policy;
  exists = λ path. true;
  extract_all = λ path. two_tables;
}

abbrev lower : Bytes → Bytes
lower s = s

run_check-unexempted : run_check lower (schema_disk no_policy) [] (codes ".") ≡ 1
unfolding run_check analyze findings collect check_column check_fk check_drift allowed classify
    target_of is_text_like is_uuid_like
run_check-unexempted = refl

run_check-errors_example :
    run_check lower (schema_disk no_policy) [] (codes ".")
    ≡ (if any (is_error_column lower no_policy two_tables) two_tables then 1 else 0)
run_check-errors_example =
    run_check-errors lower (schema_disk no_policy) [] (codes ".") no_policy refl refl refl
