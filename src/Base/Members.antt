-- ===== src/Base/Members.antt =====
-- Membership of a byte string in a list, as the source tests it.
use mathlib.Core.Path.{◌≡◌}
use mathlib.Core.Bool.{true, false}
use mathlib.Core.List.{List}
use vote_sdk.Base.Lists.{any, In, any_sound, any_complete}
use vote_sdk.Base.ByteString.{Bytes, bytes_eq, bytes_eq_iff, bytes_eq_refl}
use mathlib.Core.Path.{subst, sym}

pub listed-In : (a : Bytes) (xs : List Bytes) → any (bytes_eq a) xs ≡ true → In a xs
listed-In a xs h =
    let (b, m, e) = any_sound (bytes_eq a) xs h in
    subst (λ x. In x xs) (sym ((bytes_eq_iff a b).0 e)) m

pub In-listed : (a : Bytes) (xs : List Bytes) → In a xs → any (bytes_eq a) xs ≡ true
In-listed a xs m = any_complete (bytes_eq a) xs a m (bytes_eq_refl a)

pub unlisted : (a : Bytes) (xs : List Bytes) → any (bytes_eq a) xs ≡ false → In a xs → ⊥
unlisted a xs h m = let e = In-listed a xs m in cc (e, h)
