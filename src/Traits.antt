-- ===== src/Traits.antt =====
-- shared/json_traits/nlohmann_traits.hpp: nlohmann's json for jwt-cpp.
pub mod Casts
use simple_web_game_server.Prelude.{Bool, true, false, String, Option, none, some}

-- json::value_t
pub data ValueType : Type 0 where
  null : ValueType
  object : ValueType
  array : ValueType
  string : ValueType
  boolean : ValueType
  number_integer : ValueType
  number_unsigned : ValueType
  number_float : ValueType
  binary : ValueType
  discarded : ValueType

-- jwt::json::type, and the exceptions
pub data JwtType : Type 0 where
  boolean_type integer_type number_type string_type array_type object_type : JwtType

pub data Thrown (A : Type 0) : Type 0 where
  value : A → Thrown A
  logic_error : Thrown A
  bad_cast : Thrown A
  parse_error : Thrown A

-- nlohmann's json, with its objects, arrays, integers and doubles. `get_…` is json::get of that type.
pub record NlohmannJson (J Obj Arr Int Double : Type 0) : Type 0 where
  pub type : J → ValueType
  pub get_object : J → Obj
  pub get_string : J → String
  pub get_array : J → Arr
  pub get_int : J → Int
  pub get_bool : J → Bool
  pub get_double : J → Double
  pub parse : String → Option J
  pub dump : J → String

-- the order of the tests in `get_type`
unfoldable pub jwt_type : ValueType → Thrown JwtType
jwt_type boolean = value boolean_type
jwt_type number_integer = value integer_type
jwt_type number_unsigned = value integer_type
jwt_type number_float = value number_type
jwt_type string = value string_type
jwt_type array = value array_type
jwt_type object = value object_type
jwt_type _ = logic_error

abbrev pub if_object : {A : Type 0} → ValueType → A → Thrown A
if_object object a = value a
if_object _ a = bad_cast

abbrev pub if_string : {A : Type 0} → ValueType → A → Thrown A
if_string string a = value a
if_string _ a = bad_cast

abbrev pub if_array : {A : Type 0} → ValueType → A → Thrown A
if_array array a = value a
if_array _ a = bad_cast

abbrev pub if_integer : {A : Type 0} → ValueType → A → Thrown A
if_integer number_integer a = value a
if_integer number_unsigned a = value a
if_integer _ a = bad_cast

abbrev pub if_boolean : {A : Type 0} → ValueType → A → Thrown A
if_boolean boolean a = value a
if_boolean _ a = bad_cast

abbrev pub if_float : {A : Type 0} → ValueType → A → Thrown A
if_float number_float a = value a
if_float _ a = bad_cast

abbrev pub or_parse_error : {A : Type 0} → Option A → Thrown A
or_parse_error none = parse_error
or_parse_error (some a) = value a

module _ {J Obj Arr Int Double : Type 0} (json : NlohmannJson J Obj Arr Int Double) where
  open json use {type, get_object, get_string, get_array, get_int, get_bool, get_double, dump}

  unfoldable pub get_type : J → Thrown JwtType
  unfolding jwt_type
  get_type val = jwt_type (type val)

  unfoldable pub as_object : J → Thrown Obj
  as_object val = if_object (type val) (get_object val)

  unfoldable pub as_string : J → Thrown String
  as_string val = if_string (type val) (get_string val)

  unfoldable pub as_array : J → Thrown Arr
  as_array val = if_array (type val) (get_array val)

  unfoldable pub as_int : J → Thrown Int
  as_int val = if_integer (type val) (get_int val)

  unfoldable pub as_bool : J → Thrown Bool
  as_bool val = if_boolean (type val) (get_bool val)

  unfoldable pub as_number : J → Thrown Double
  as_number val = if_float (type val) (get_double val)

  -- `parse` fills its first argument, and then returns true
  unfoldable pub parse : String → Thrown J
  parse str = or_parse_error (json.parse str)

  unfoldable pub serialize : J → String
  serialize val = dump val
