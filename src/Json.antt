-- ===== src/Json.antt =====
-- JSON values, as the columns of type JSONB hold them. Of a number only whether it is zero is read.
use hyproxy.Base.{
  ℕ, Bool, true, false, Option, none, some, not, Text, text_eq, ◌==◌, ◌||◌, if◌then◌else◌, [],
}
use hyproxy.Base.{◌∷◌}

mutual
  pub data Json : Type 0 where
    null : Json
    bool : Bool → Json
    num : ℕ → Json
    str : Text → Json
    arr : Items → Json
    obj : Fields → Json

  pub data Items : Type 0 where
    nil : Items
    cons : Json → Items → Items

  pub data Fields : Type 0 where
    end : Fields
    field : Text → Json → Fields → Fields

-- `d.get(key)`
unfoldable pub get : Text → Fields → Option Json
get k end = none
get k (field j v d) = if text_eq j k then some v else get k d

-- `bool(value)`
unfoldable pub truthy : Json → Bool
truthy null = false
truthy (bool b) = b
truthy (num n) = not (n == 0)
truthy (str []) = false
truthy (str (c ∷ t)) = true
truthy (arr nil) = false
truthy (arr (cons v vs)) = true
truthy (obj end) = false
truthy (obj (field k v d)) = true

-- `text in values`, for a list of JSON values
unfoldable pub mem_str : Text → Items → Bool
mem_str t nil = false
mem_str t (cons (str s) vs) = text_eq s t || mem_str t vs
mem_str t (cons _ vs) = mem_str t vs

-- `set(d) - {key}` is not empty
unfoldable pub has_other_key : Text → Fields → Bool
has_other_key k end = false
has_other_key k (field j v d) = not (text_eq j k) || has_other_key k d
