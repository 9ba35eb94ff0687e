-- ===== src/Binding/Ksuids/Validity.antt =====
-- The native functions on strings as JavaScript holds them.
use rivid.Common.{◌≡◌, ap, sym, ◌∙◌, true, [], ◌∷◌, Bytes, inl, inr, Bool-cases, arith}
use rivid.Engine.Error.{ok}
use rivid.Engine.Ksuid.{decode_bytes}
use rivid.Engine.Ksuid.Validity.{
  all_base62, is_ksuid_text, accepted, three_tests, is_valid-is_ksuid_text,
}
use rivid.Js.{Host, IsAscii}
use rivid.Binding.Ksuids.{is_valid_ksuid}

all_base62-IsAscii : (cs : Bytes) → all_base62 cs ≡ true → IsAscii cs
all_base62-IsAscii [] h = tt
all_base62-IsAscii (c ∷ cs) h = (ground (arith, h), all_base62-IsAscii cs (ground (arith, h)))

text-IsAscii : (id : Bytes) → is_ksuid_text id ≡ true → IsAscii id
text-IsAscii id h = all_base62-IsAscii id ((three_tests _ _ _).0 h).1

-- A string that decodes arrives as it is.
pub utf8-ksuid : (host : Host) (id bytes : Bytes) → decode_bytes id ≡ ok bytes → host.utf8 id ≡ id
utf8-ksuid host id bytes h = host.utf8_ascii id (text-IsAscii id (accepted id bytes h))

-- `isValidKsuid` accepts exactly the strings of 27 characters of `0-9A-Za-z` that do not come after
-- aWgEPTl1tmebfsQzFP4bxwgy80V, also among the strings that are not ASCII.
pub is_valid_ksuid-is_ksuid_text :
    (host : Host) (id : Bytes) → is_valid_ksuid host id ≡ is_ksuid_text id
unfolding is_valid_ksuid
is_valid_ksuid-is_ksuid_text host id =
    is_valid-is_ksuid_text (host.utf8 id) ∙ elim (Bool-cases (is_ksuid_text id)) [
      | inl t ↦ ap is_ksuid_text (host.utf8_ascii id (text-IsAscii id t))
      | inr f ↦ elim (Bool-cases (is_ksuid_text (host.utf8 id))) [
        | inl t ↦ ap is_ksuid_text (host.ascii_utf8 id (text-IsAscii (host.utf8 id) t))
        | inr g ↦ g ∙ sym f
      ]
    ]
