-- ===== src/Schemas/Json.antt =====
-- The values that Python's `json` module makes, as the program reads them.
use ai_video_clip_processing.Base.{Bool, Option, none, some, Text, text_eq, ℤ, if◌then◌else◌}

mutual
  pub data Json : Type 0 where
    null : Json
    bool : Bool → Json
    int : ℤ → Json
    -- a number with a fraction or an exponent, by its spelling
    float : Text → Json
    str : Text → Json
    arr : Items → Json
    obj : Fields → Json

  pub data Items : Type 0 where
    nil : Items
    cons : Json → Items → Items

  pub data Fields : Type 0 where
    end : Fields
    field : Text → Json → Fields → Fields

-- `data.get(key)`, where `none` says that the key is absent
unfoldable pub get_field : Text → Fields → Option Json
get_field key end = none
get_field key (field k v rest) = if text_eq k key then some v else get_field key rest
