-- ===== src/Traits/Casts.antt =====
-- The conversions of shared/json_traits/nlohmann_traits.hpp beside its `get_type`.
use simple_web_game_server.Prelude.{◌≡◌, refl, Bool, true, false, String}
use simple_web_game_server.Traits.{
  ValueType, null, object, array, string, boolean, number_integer, number_unsigned, number_float,
  binary, discarded, JwtType, boolean_type, integer_type, number_type, string_type, array_type,
  object_type, Thrown, value, NlohmannJson, jwt_type, if_object, if_string, if_array, if_integer,
  if_boolean, if_float, get_type, as_object, as_string, as_array, as_int, as_bool, as_number,
}

abbrev pub succeeds : {A : Type 0} → Thrown A → Bool
succeeds (value a) = true
succeeds _ = false

abbrev same_type : JwtType → JwtType → Bool
same_type boolean_type boolean_type = true
same_type integer_type integer_type = true
same_type number_type number_type = true
same_type string_type string_type = true
same_type array_type array_type = true
same_type object_type object_type = true
same_type _ _ = false

-- `get_type` has answered this type.
abbrev pub is_typed : Thrown JwtType → JwtType → Bool
is_typed (value t) u = same_type t u
is_typed _ u = false

-- What the conversions of a value with the type `t` do.
abbrev Agree :
    {Obj Arr Int Double : Type 0} → ValueType → Obj → Arr → Int → Double → String → Bool → Type 0
Agree t o a i d s b =
    (succeeds (if_object t o) ≡ is_typed (jwt_type t) object_type)
    × (succeeds (if_string t s) ≡ is_typed (jwt_type t) string_type)
    × (succeeds (if_array t a) ≡ is_typed (jwt_type t) array_type)
    × (succeeds (if_integer t i) ≡ is_typed (jwt_type t) integer_type)
    × (succeeds (if_boolean t b) ≡ is_typed (jwt_type t) boolean_type)
    × (succeeds (if_float t d) ≡ is_typed (jwt_type t) number_type)

agree :
    {Obj Arr Int Double : Type 0} (t : ValueType) (o : Obj) (a : Arr) (i : Int) (d : Double)
    (s : String) (b : Bool)
    → Agree t o a i d s b
unfolding jwt_type
agree null o a i d s b = (refl, refl, refl, refl, refl, refl)
agree object o a i d s b = (refl, refl, refl, refl, refl, refl)
agree array o a i d s b = (refl, refl, refl, refl, refl, refl)
agree string o a i d s b = (refl, refl, refl, refl, refl, refl)
agree boolean o a i d s b = (refl, refl, refl, refl, refl, refl)
agree number_integer o a i d s b = (refl, refl, refl, refl, refl, refl)
agree number_unsigned o a i d s b = (refl, refl, refl, refl, refl, refl)
agree number_float o a i d s b = (refl, refl, refl, refl, refl, refl)
agree binary o a i d s b = (refl, refl, refl, refl, refl, refl)
agree discarded o a i d s b = (refl, refl, refl, refl, refl, refl)

module _ {J Obj Arr Int Double : Type 0} (json : NlohmannJson J Obj Arr Int Double) where
  -- Each of the six conversions returns a value if and only if `get_type` answers the type that goes
  -- with it.
  pub casts :
      (val : J)
      → (succeeds (as_object json val) ≡ is_typed (get_type json val) object_type)
        × (succeeds (as_string json val) ≡ is_typed (get_type json val) string_type)
        × (succeeds (as_array json val) ≡ is_typed (get_type json val) array_type)
        × (succeeds (as_int json val) ≡ is_typed (get_type json val) integer_type)
        × (succeeds (as_bool json val) ≡ is_typed (get_type json val) boolean_type)
        × (succeeds (as_number json val) ≡ is_typed (get_type json val) number_type)
  unfolding get_type as_object as_string as_array as_int as_bool as_number
  casts val =
      agree (json.type val) (json.get_object val) (json.get_array val) (json.get_int val)
        (json.get_double val) (json.get_string val) (json.get_bool val)
