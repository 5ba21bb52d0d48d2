-- ===== src/Json.antt =====
-- The interface of jsoncpp (Json::Value, Json::Reader), which the service and its client call and which is
-- not in the repository. A member read or a conversion that does not fit the value throws.
pub mod Convert
pub mod Objects
pub mod RoundTrips
use dbl_service.Prelude.{
  ℕ, ◌<◌, String, ◌≡◌, Bool, true, false, Option, some, List, [], ◌∷◌, ◌++◌, ◌==◌, if◌then◌else◌,
}
use dbl_service.Fallible.{Result, ok}

pub record Json : Type 1 where
  pub Value : Type 0
  -- Reader::parse, and getFormattedErrorMessages() where it fails
  pub parse : String → Option Value
  pub messages : String → String
  -- value[key], null where the key is missing
  pub member : Value → String → Result Value
  pub as_string : Value → Result String
  pub as_bool : Value → Result Bool
  -- asInt(), which throws for what no int holds: the program asks it for ids, counts and times, which are not
  -- negative
  pub as_int : Value → Result ℕ
  pub is_array : Value → Bool
  pub is_object : Value → Bool
  -- empty(): null, or an array or object with nothing in it
  pub is_empty : Value → Bool
  -- the values of `for(auto const& item : value)`
  pub elements : Value → List Value
  pub null_value : Value
  pub array_value : Value
  pub object_value : Value
  pub text : String → Value
  -- Json::Value(int), of an int n that is not negative, and of -(n + 1)
  pub number : ℕ → Value
  pub negative : ℕ → Value
  pub flag : Bool → Value
  -- value[key] = v, and value.append(v)
  pub assign : Value → String → Value → Value
  pub append : Value → Value → Value
  -- toStyledString()
  pub print : Value → String

-- What the client and the server rely on of jsoncpp, where they build objects of texts and flags and read
-- their members.
pub record IsLawful (j : Json) : Type 0 where
  pub object-IsObject : j.is_object j.object_value ≡ true
  pub assign-null :
      (k : String) (v : j.Value) → j.assign j.null_value k v ≡ j.assign j.object_value k v
  pub assign-IsObject :
      (o : j.Value) (k : String) (v : j.Value)
      → j.is_object o ≡ true
      → j.is_object (j.assign o k v) ≡ true
  pub member-object : (k : String) → j.member j.object_value k ≡ ok j.null_value
  pub member-assign :
      (o : j.Value) (k l : String) (v : j.Value)
      → j.is_object o ≡ true
      → j.member (j.assign o k v) l ≡ (if k == l then ok v else j.member o l)
  pub as_string-text : (s : String) → j.as_string (j.text s) ≡ ok s
  pub as_bool-flag : (b : Bool) → j.as_bool (j.flag b) ≡ ok b

-- What reading numbers and arrays relies on besides. Only null and what holds nothing is empty.
pub record HasItems (j : Json) : Type 0 where
  -- an int has 32 bits
  pub as_int-number : (n : ℕ) → n < 2147483648 → j.as_int (j.number n) ≡ ok n
  pub empty-null : j.is_empty j.null_value ≡ true
  pub empty-text : (s : String) → j.is_empty (j.text s) ≡ false
  pub empty-number : (n : ℕ) → j.is_empty (j.number n) ≡ false
  pub array-IsArray : j.is_array j.array_value ≡ true
  pub append-IsArray : (a v : j.Value) → j.is_array a ≡ true → j.is_array (j.append a v) ≡ true
  pub elements-array : j.elements j.array_value ≡ []
  pub elements-append :
      (a v : j.Value) → j.is_array a ≡ true → j.elements (j.append a v) ≡ j.elements a ++ v ∷ []

-- A value that is printed is read back.
abbrev pub Carries : (j : Json) → j.Value → Type 0
Carries j v = j.parse (j.print v) ≡ some v
