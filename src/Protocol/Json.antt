-- ===== src/Protocol/Json.antt =====
-- What the messages use of `encoding/json`: values, and how `Unmarshal` fills the fields of a
-- struct. A message is its parsed value; keys are compared as they are spelled.
use cloudbridge.Common.{
  ℕ, Bool, false, List, [], ◌∷◌, String, string_eq, ◌==◌, if◌then◌else◌, Option, none, some, ltb,
  ◌^◌,
}

mutual
  pub data Json : Type 0 where
    null : Json
    bool : Bool → Json
    num : ℕ → Json
    -- The number `- (n + 1)`.
    negative : ℕ → Json
    -- A number that is no integer.
    other_num : Json
    str : String → Json
    arr : Items → Json
    obj : Fields → Json

  pub data Items : Type 0 where
    nil : Items
    cons : Json → Items → Items

  pub data Fields : Type 0 where
    end : Fields
    field : String → Json → Fields → Fields

-- The value of a key: the last one counts, and a missing key leaves Go's zero value, as null does.
abbrev pub member_from : Json → String → Fields → Json
member_from found k end = found
member_from found k (field j v fs) = member_from (if j == k then v else found) k fs

abbrev pub member : String → Fields → Json
member k fs = member_from null k fs

-- A field of type `json.RawMessage`: nil where the key is missing, and the value as it is.
abbrev pub raw_member_from : Option Json → String → Fields → Option Json
raw_member_from found k end = found
raw_member_from found k (field j v fs) = raw_member_from (if j == k then some v else found) k fs

abbrev pub raw_member : String → Fields → Option Json
raw_member k fs = raw_member_from none k fs

-- `none` is the error of a value of the wrong type.
abbrev pub as_string : Json → Option String
as_string null = some ""
as_string (str s) = some s
as_string _ = none

abbrev pub as_bool : Json → Option Bool
as_bool null = some false
as_bool (bool b) = some b
as_bool _ = none

-- Integers: `pos n` is n, and `negsuc n` is - (n + 1).
pub data ℤ : Type 0 where
  pos negsuc : ℕ → ℤ

abbrev pub int_json : ℤ → Json
int_json (pos n) = num n
int_json (negsuc n) = negative n

-- An int64.
abbrev pub as_int : Json → Option ℤ
as_int null = some (pos 0)
as_int (num n) = if ltb n (2 ^ 63) then some (pos n) else none
as_int (negative n) = if ltb n (2 ^ 63) then some (negsuc n) else none
as_int _ = none

infixl 5 ◌>>=◌
abbrev pub ◌>>=◌ {ℓ κ} : {A : Type ℓ} {B : Type κ} → Option A → (A → Option B) → Option B
none >>= f = none
some a >>= f = f a

abbrev pub items_strings : Items → Option (List String)
items_strings nil = some []
items_strings (cons v vs) = do s ← as_string v; rest ← items_strings vs; some (s ∷ rest)

-- A slice of strings, which can be nil.
abbrev pub Strings : Type 0
Strings = Option (List String)

abbrev pub as_strings : Json → Option Strings
as_strings null = some none
as_strings (arr vs) = do ss ← items_strings vs; some (some ss)
as_strings _ = none

-- `json.Unmarshal` into a struct: null leaves it as it is, any other value must be an object.
abbrev pub as_struct : Json → Option Fields
as_struct null = some end
as_struct (obj fs) = some fs
as_struct _ = none

abbrev pub strings_items : List String → Items
strings_items [] = nil
strings_items (s ∷ ss) = cons (str s) (strings_items ss)

abbrev pub strings_json : Strings → Json
strings_json none = null
strings_json (some ss) = arr (strings_items ss)
