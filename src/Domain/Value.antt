-- ===== src/Domain/Value.antt =====
-- JavaScript values as the boundaries of packages/domain and packages/institution read them.
-- An object is its prototype and its own properties in order; reading an accessor gives the value
-- that its getter returns.
use Prim.Native.String.{String}
use text.Mathlib.Text.{◌==◌ as str_eq}
use ultratokenizer.Base.{ℕ, Text, Bool, true, false, List, [], ◌∷◌, any, if◌then◌else◌}

pub data Proto : Type 0 where
  object_prototype null_prototype other_prototype : Proto

pub data Key : Type 0 where
  name : String → Key
  symbol : Key

-- `number` is a nonnegative integer, of type number; `other` is any other number, a bigint, a
-- function or a symbol.
mutual
  pub data Value : Type 0 where
    undefined null other : Value
    boolean : Bool → Value
    number : ℕ → Value
    str : Text → Value
    arr : Items → Value
    obj : Proto → Props → Value

  pub data Items : Type 0 where
    nil : Items
    cons : Value → Items → Items

  pub data Props : Type 0 where
    end : Props
    prop : Key → (accessor : Bool) → Value → Props → Props

pub record Entry : Type 0 where
  pub key : Key
  pub accessor : Bool
  pub value : Value

abbrev pub items : Items → List Value
items nil = []
items (cons v vs) = v ∷ items vs

abbrev pub entries : Props → List Entry
entries end = []
entries (prop k a v ps) = record { key = k; accessor = a; value = v } ∷ entries ps

-- A plain object: what is written `{ … }` in the program, or has no prototype.
abbrev pub is_plain : Proto → Bool
is_plain object_prototype = true
is_plain null_prototype = true
is_plain other_prototype = false

abbrev pub is_name : String → Key → Bool
is_name field (name k) = str_eq k field
is_name field symbol = false

-- `fields.includes(key)`, false for a symbol.
abbrev pub is_one_of : List String → Key → Bool
is_one_of fields key = any (λ field. is_name field key) fields

-- `Object.hasOwn(value, field)`.
abbrev pub has_own : String → List Entry → Bool
has_own field es = any (λ e. is_name field e.key) es

-- `value[field]`; the prototypes that are admitted have none of the fields that are read.
abbrev pub get : String → List Entry → Value
get field [] = undefined
get field (e ∷ es) = if is_name field e.key then e.value else get field es

-- Whether `field` is an own property that holds its value.
abbrev pub is_data_property : String → List Entry → Bool
is_data_property field [] = false
is_data_property field (e ∷ es) =
    if is_name field e.key then if e.accessor then false else true else is_data_property field es

-- An object literal of texts.
abbrev pub texts : List (String × Text) → Props
texts [] = end
texts ((k, t) ∷ r) = prop (name k) false (str t) (texts r)
