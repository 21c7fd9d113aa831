-- ===== src/Tools/Json.antt =====
-- The values of `json.loads`. An object keeps the order of its keys.
use smart_router.Prelude.{ℕ, Bool, true, false, String, Option, none, some, ◌==◌, if◌then◌else◌}
use smart_router.Schemas.Message.{Text}

-- `negsuc n` is -(n + 1).
pub data ℤ : Type 0 where
  pos negsuc : ℕ → ℤ

mutual
  pub data Json (F : Type 0) : Type 0 where
    null : Json F
    boolean : Bool → Json F
    integer : ℤ → Json F
    float : F → Json F
    text : Text → Json F
    array : Items F → Json F
    object : Fields F → Json F

  pub data Items (F : Type 0) : Type 0 where
    nil : Items F
    cons : Json F → Items F → Items F

  pub data Fields (F : Type 0) : Type 0 where
    end : Fields F
    field : String → Json F → Fields F → Fields F

module _ {F : Type 0} where
  -- `d.get(key)`
  unfoldable pub get_field : String → Fields F → Option (Json F)
  get_field k end = none
  get_field k (field j v d) = let rest = get_field k d in if j == k then some v else rest

  -- an empty container, `None`, `False`, zero and the empty text are false
  abbrev pub has_fields : Fields F → Bool
  has_fields end = false
  has_fields (field k v d) = true
