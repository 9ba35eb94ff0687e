-- ===== src/Api/Ksuid/Sorting.antt =====
-- `sortKsuid` of src/ksuid.ts.
use rivid.Common.{◌≡◌, List, ◌∷◌, ◌++◌, Bytes, All}
use rivid.Engine.Error.{Error, err}
use rivid.Engine.Ksuid.{decode_bytes}
use rivid.Js.{Host, returns, throws, native}
use rivid.Js.Sort.{IsSortOf}
use rivid.Binding.Ksuids.Sorting.{IsKsuidText, ksuid_value, sort_ksuid-IsSortOf, sort_ksuid-invalid}
use rivid.Api.Ksuid.{sort_ksuid}

-- `sortKsuid` of KSUID strings succeeds with the strings ascending by their 160-bit values, those of
-- equal value in the order they had; and where a string that the engine does not decode follows
-- them, it throws the engine's error on that string, whatever stands behind it.
pub sort_ksuid-outcome :
    (host : Host) (ids : List Bytes) (bad : Bytes) (behind : List Bytes) (e : Error)
    → All IsKsuidText ids
    → decode_bytes (host.utf8 bad) ≡ err e
    → ((ys : List Bytes) × (sort_ksuid host ids ≡ returns ys) × IsSortOf ksuid_value ids ys)
      × (sort_ksuid host (ids ++ (bad ∷ behind)) ≡ throws (native e))
unfolding sort_ksuid
sort_ksuid-outcome host ids bad behind e h k =
    (sort_ksuid-IsSortOf host ids h, sort_ksuid-invalid host ids bad behind e h k)
