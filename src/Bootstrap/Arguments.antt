-- ===== src/Bootstrap/Arguments.antt =====
-- What the arguments `key=value` of the bootstrap give.
use encrypted_zone_sdk.Base.{◌≡◌, refl, [], ◌∷◌, map, nat_eq, All, text_eq}
use encrypted_zone_sdk.Base.Dict.{Dict, insert, update}
use encrypted_zone_sdk.Base.Result.{ok}
use encrypted_zone_sdk.Base.Text.{Text, Lacks}
use encrypted_zone_sdk.Base.KeyValue.{argument, split_once-argument}
use encrypted_zone_sdk.Bootstrap.Main.{read_args}

read_args-update :
    (items context : Dict Text Text)
    → All (λ ((key, value) : Text × Text). Lacks b'=' key) items
    → read_args (map argument items) context ≡ ok (update context items)
unfolding read_args text_eq
read_args-update [] context _ = refl
read_args-update ((key, value) ∷ items) context (h, hs) =
    rw
      (
        split_once-argument key value h,
        read_args,
        read_args-update items (insert key value context) hs,
      )
      refl

-- Arguments that are written from keys and values, the keys without `=`, give the dictionary with
-- these values, of which the last of a key counts; the values may hold `=`.
pub read_args-argument :
    (items : Dict Text Text)
    → All (λ ((key, value) : Text × Text). Lacks b'=' key) items
    → read_args (map argument items) [] ≡ ok (update [] items)
read_args-argument items h = read_args-update items [] h
