-- ===== src/Json.antt =====
-- The values of a payload, which the services store and hash and never look into.
use dox.Prelude.{Option, none, some, ◌==◌, String_eq, if◌then◌else◌, ℕ, Bool, String}

mutual
  pub data Json : Type 0 where
    null : Json
    bool : Bool → Json
    num : ℕ → Json
    str : String → Json
    arr : Items → Json
    obj : Fields → Json

  pub data Items : Type 0 where
    nil : Items
    cons : Json → Items → Items

  pub data Fields : Type 0 where
    end : Fields
    field : String → Json → Fields → Fields

abbrev pub in_fields : String → Fields → Option Json
in_fields k end = none
in_fields k (field j v fields) = if j == k then some v else in_fields k fields

-- The value of a key of an object.
unfoldable pub member : String → Json → Option Json
member k (obj fields) = in_fields k fields
member k null = none
member k (bool b) = none
member k (num n) = none
member k (str s) = none
member k (arr items) = none
