-- ===== src/Runs/Schemas.antt =====
-- Tables declared in SQL, in a Prisma schema and with Drizzle.
use rivid.Common.{◌≡◌, refl, true, false, none, some, [], ◌∷◌, Bytes, codes, All}
use rivid.Js.Regex.{exec, test, match_all, split, exec_from, match_at}
use rivid.Js.Text.{join, trim, trim_start, is_space, is_word}
use rivid.Cli.Extract.Sql.{
  sql_types, find_type, typed_column, primary_key_re, references_re, column_of, line_columns,
  body_columns, table_columns, extract_sql,
}
use rivid.Cli.Extract.PrismaSchema.{
  field_rep, field_of, line_fields, model_fields, schema_fields, extract_prisma,
}
use rivid.Cli.Extract.DrizzleSchema.{
  column_rep, property_column, table_properties, schema_tables, extract_drizzle_ts,
}
use rivid.Cli.Extract.Identifiers.{IsSqlColumn, extract_sql-IsSqlColumn}

abbrev orders : Bytes
orders =
    codes
      "CREATE TABLE orders (id uuid PRIMARY KEY, note text, user_id char(36) REFERENCES users(id));"

extract_sql-orders : extract_sql orders (codes "a.sql") ≡ (
    record {
      table = codes "orders";
      column = codes "id";
      rep = codes "uuid";
      width = some 16;
      pk = true;
      unique = false;
      fk = none;
      file = codes "a.sql";
    }
    ∷ record {
      table = codes "orders";
      column = codes "user_id";
      rep = codes "char(36)";
      width = some 36;
      pk = false;
      unique = false;
      fk = some (some (codes "users"), codes "id");
      file = codes "a.sql";
    }
    ∷ [])
unfolding extract_sql table_columns body_columns line_columns column_of typed_column primary_key_re
    references_re find_type sql_types exec test match_all split exec_from match_at trim trim_start
    is_space is_word
extract_sql-orders = refl

extract_sql-IsSqlColumn_example :
    All (IsSqlColumn (codes "a.sql")) (extract_sql orders (codes "a.sql"))
extract_sql-IsSqlColumn_example = extract_sql-IsSqlColumn (codes "a.sql") orders

extract_prisma-user :
    extract_prisma
      (codes "model User {\n  id String @id @db.Char(26)\n  name String\n}")
      (codes "s.prisma")
    ≡ (record {
      table = codes "User";
      column = codes "id";
      rep = codes "char(26)";
      width = some 26;
      pk = true;
      unique = false;
      fk = none;
      file = codes "s.prisma";
    }
        ∷ [])
unfolding extract_prisma schema_fields model_fields line_fields field_of field_rep exec test
    match_all split exec_from match_at trim trim_start is_space is_word join
extract_prisma-user = refl

extract_drizzle_ts-users :
    extract_drizzle_ts
      (codes
        "pgTable('users', {\n  id: varchar('uid', { length: 36 }).primaryKey(),\n  name: text('name')\n})")
      (codes "s.ts")
    ≡ (record {
      table = codes "users";
      column = codes "uid";
      rep = codes "varchar(36)";
      width = some 36;
      pk = true;
      unique = false;
      fk = none;
      file = codes "s.ts";
    }
        ∷ [])
unfolding extract_drizzle_ts schema_tables table_properties property_column column_rep exec test
    match_all split exec_from match_at trim trim_start is_space is_word
extract_drizzle_ts-users = refl
