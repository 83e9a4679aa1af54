-- ===== src/Flow/Json.antt =====
-- Parsed JSON values, as packages/shared-core/src/flows.ts and working-hours.ts inspect them. Numbers are only told
-- from other values. A member that an object lacks is `undefined`, which is `none`.
use hy_fib_wa_app.Prelude.{ℕ, Bool, List, [], ◌∷◌, Option, none, some, Text, text_eq, if◌then◌else◌}

mutual
  pub data Json : Type 0 where
    null : Json
    bool : Bool → Json
    num : ℕ → Json
    str : Text → Json
    arr : Items → Json
    obj : Members → Json

  pub data Items : Type 0 where
    no_items : Items
    item : Json → Items → Items

  pub data Members : Type 0 where
    no_members : Members
    member : Text → Json → Members → Members

unfoldable pub items : Items → List Json
items no_items = []
items (item v vs) = v ∷ items vs

unfoldable pub entries : Members → List (Text × Json)
entries no_members = []
entries (member k v ms) = (k, v) ∷ entries ms

unfoldable pub get_member : Text → Members → Option Json
get_member key no_members = none
get_member key (member k v ms) = if text_eq k key then some v else get_member key ms

-- `value[key]`, where the value is not null.
unfoldable pub get : Text → Json → Option Json
unfolding get_member
get key (obj ms) = get_member key ms
get key _ = none
