-- ===== src/Pack/Tests.antt =====
-- An integer of two bytes with a byte behind it, and an index of three ids, two with the same first byte.
use wll.Base.{◌≡◌, ◌≤◌, ◌+◌, ◌^◌, List, [], ◌∷◌, ◌++◌, length, some, refl, arith}
use wll.Base.Result.{ok}
use wll.Pack.Varint.{encode_varint, decode_varint}
use wll.Base.Maps
use wll.Pack.Index.{Row, build, lookup}
use wll.Pack.Index.Found.{lookup-build}
use wll.Pack.Varint.Inverse.{decode_varint-encode_varint}

decode_varint-encode_varint_example :
    (decode_varint (encode_varint 300 ++ 7 ∷ []) ≡ ok (300, length (encode_varint 300)))
    × (length (encode_varint 300) ≤ 10)
decode_varint-encode_varint_example = decode_varint-encode_varint 300 (7 ∷ []) (omega arith)

abbrev entries : List Row
entries = (2 ^ 249 + 5, (11, 100)) ∷ (7, (12, 40)) ∷ (2 ^ 249 + 3, (13, 12)) ∷ []

lookup-build_example : lookup (build entries 0) (2 ^ 249 + 3) ≡ some (some (12, 13))
unfolding Maps.contains_key Maps.get
lookup-build_example = lookup-build entries 0 (2 ^ 249 + 3) (refl, (refl, (refl, tt))) (omega arith)
