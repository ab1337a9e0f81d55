-- ===== src/Base/KeyValue.antt =====
-- Texts `key=value`, as the scripts take them for arguments.
use native.Mathlib.Omega.{arith}
use Prim.Native.Nat.{ℕ}
use mathlib.Core.Path.{◌≡◌, refl}
use mathlib.Core.Option.{none, some}
use mathlib.Core.List.{[], ◌∷◌, ◌++◌}
use encrypted_zone_sdk.Base.Text.{Text, split_once, Lacks}

-- `f"{key}={value}"`
abbrev pub argument : Text × Text → Text
argument (key, value) = key ++ (b'=' ∷ value)

-- A text is cut at the first separator.
pub split_once-append :
    (sep : ℕ) (s t : Text) → Lacks sep s → split_once sep (s ++ (sep ∷ t)) ≡ some (s, t)
unfolding split_once
split_once-append sep [] t _ = ground arith
split_once-append sep (c ∷ s) t (hc, hs) = rw (hc, split_once-append sep s t hs) refl

pub split_once-Lacks : (sep : ℕ) (s : Text) → Lacks sep s → split_once sep s ≡ none
unfolding split_once
split_once-Lacks sep [] _ = refl
split_once-Lacks sep (c ∷ s) (hc, hs) = rw (hc, split_once-Lacks sep s hs) refl

pub split_once-argument :
    (key value : Text)
    → Lacks b'=' key
    → split_once b'=' (argument (key, value)) ≡ some (key, value)
split_once-argument key value h = split_once-append b'=' key value h
