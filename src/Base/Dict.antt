-- ===== src/Base/Dict.antt =====
-- Python's `dict` with text keys: its entries in the order of insertion.
use mathlib.Core.Path.{◌≡◌, refl}
use mathlib.Core.Option.{Option, none, some}
use mathlib.Core.List.{List, [], ◌∷◌, map}
use native.Mathlib.Omega.{arith}
use ai_video_clip_processing.Base.Tests.{if◌then◌else◌, any}
use ai_video_clip_processing.Base.Strings.{Text, text_eq, text_eq_iff}

module _ {A : Type 0} where
  -- `d.get(key)`
  unfoldable pub dict_get : Text → List (Text × A) → Option A
  dict_get key [] = none
  dict_get key ((k, a) ∷ rest) = if text_eq k key then some a else dict_get key rest

  -- `d[key] = value`: an old entry keeps its place
  unfoldable pub dict_set : Text → A → List (Text × A) → List (Text × A)
  dict_set key value [] = (key, value) ∷ []
  dict_set key value ((k, a) ∷ rest) =
      if text_eq k key then (k, value) ∷ rest else (k, a) ∷ dict_set key value rest

  -- `d.pop(key, None)`; a dict holds a key once, and all its entries go
  unfoldable pub dict_pop : Text → List (Text × A) → List (Text × A)
  dict_pop key [] = []
  dict_pop key ((k, a) ∷ rest) =
      if text_eq k key then dict_pop key rest else (k, a) ∷ dict_pop key rest

  -- `for key in keys: d.pop(key, None)`
  unfoldable pub dict_pop_all : List Text → List (Text × A) → List (Text × A)
  unfolding dict_pop
  dict_pop_all [] d = d
  dict_pop_all (key ∷ keys) d = dict_pop_all keys (dict_pop key d)

  -- `d.values()`
  abbrev pub dict_values : List (Text × A) → List A
  dict_values = map (λ (e : Text × A). e.1)

  pub get-set :
      (j key : Text) (value : A) (d : List (Text × A))
      → dict_get j (dict_set key value d) ≡ (if text_eq key j then some value else dict_get j d)
  unfolding dict_get dict_set
  get-set j key value [] = refl
  get-set j key value ((k, a) ∷ rest) =
      ground
        (arith, get-set j key value rest, text_eq_iff k key, text_eq_iff key j, text_eq_iff k j)

  pub get-pop :
      (j key : Text) (d : List (Text × A))
      → dict_get j (dict_pop key d) ≡ (if text_eq key j then none else dict_get j d)
  unfolding dict_get dict_pop
  get-pop j key [] = ground arith
  get-pop j key ((k, a) ∷ rest) =
      ground (arith, get-pop j key rest, text_eq_iff k key, text_eq_iff key j, text_eq_iff k j)

  pub get-pop_all :
      (j : Text) (keys : List Text) (d : List (Text × A))
      → dict_get j (dict_pop_all keys d)
        ≡ (if any (λ k. text_eq k j) keys then none else dict_get j d)
  unfolding dict_pop_all
  get-pop_all j [] d = refl
  get-pop_all j (key ∷ keys) d =
      ground (arith, get-pop_all j keys (dict_pop key d), get-pop j key d)
