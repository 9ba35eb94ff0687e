-- ===== src/Api/Ksuid.antt =====
-- src/ksuid.ts: KSUIDs for JavaScript. All but `sortKsuid` are the native functions themselves.
pub mod Sorting
pub mod Times
use rivid.Common.{ℕ, List, Bytes, codes}
use rivid.Js.{Host, Outcome}
use rivid.Binding.Ksuids

abbrev pub ksuid_epoch_ms : ℕ
ksuid_epoch_ms = 1400000000000

abbrev pub ksuid_epoch_seconds : ℕ
ksuid_epoch_seconds = 1400000000

abbrev pub ksuid_time_max_ms : ℕ
ksuid_time_max_ms = 5694967295000

abbrev pub ksuid_bytes_len : ℕ
ksuid_bytes_len = 20

abbrev pub ksuid_len : ℕ
ksuid_len = 27

abbrev pub min_ksuid : Bytes
min_ksuid = codes "000000000000000000000000000"

abbrev pub max_ksuid : Bytes
max_ksuid = codes "aWgEPTl1tmebfsQzFP4bxwgy80V"

-- The copy is what the native function takes; the caller's array stays as it is.
unfoldable pub sort_ksuid : Host → List Bytes → Outcome (List Bytes)
sort_ksuid host ids = Ksuids.sort_ksuid host ids
