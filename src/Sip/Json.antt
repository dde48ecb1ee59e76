-- ===== src/Sip/Json.antt =====
-- projectlib/json.hpp, as the dialogs use it: the value, a variant of the alternatives below (a
-- floating-point number, which no access here reads, is left out), and the access to it. A failed `boost::get` throws `boost::bad_get`, which is `none` here.
use project_mediaswitch.Base.{
  Bool, true, false, Bytes, Option, none, some, bytes_eq, if◌then◌else◌, ℤ,
}

mutual
  pub data Json : Type 0 where
    undefined null : Json
    boolean : Bool → Json
    integer : ℤ → Json
    string : Bytes → Json
    array : Items → Json
    object : Fields → Json

  pub data Items : Type 0 where
    no_items : Items
    item : Json → Items → Items

  pub data Fields : Type 0 where
    no_fields : Fields
    field : Bytes → Json → Fields → Fields

-- Object::has_key and Object::operator[]; what the operator makes of a missing key is undefined.
unfoldable pub find_key : Bytes → Fields → Option Json
find_key k no_fields = none
find_key k (field n v fs) = if bytes_eq n k then some v else find_key k fs

abbrev pub has_key : Bytes → Fields → Bool
has_key k fs = elim (find_key k fs) [ none ↦ false | some v ↦ true ]

abbrev pub at_key : Bytes → Fields → Json
at_key k fs = elim (find_key k fs) [ none ↦ undefined | some v ↦ v ]

-- as_object, as_string, as_int64 and as_boolean
abbrev pub as_object : Json → Option Fields
as_object (object fs) = some fs
as_object _ = none

abbrev pub as_string : Json → Option Bytes
as_string (string s) = some s
as_string _ = none

abbrev pub as_int64 : Json → Option ℤ
as_int64 (integer n) = some n
as_int64 _ = none

abbrev pub as_boolean : Json → Option Bool
as_boolean (boolean b) = some b
as_boolean _ = none

-- `o.has_key( k ) && 5 == o[ k ].which() && s == JSON::as_string( o[ k ] )`
abbrev pub says : Bytes → Bytes → Fields → Bool
says k s fs = elim (as_string (at_key k fs)) [ none ↦ false | some t ↦ bytes_eq s t ]

-- A member that must be an object, a string or a number.
abbrev pub object_at : Bytes → Fields → Option Fields
object_at k fs = as_object (at_key k fs)

abbrev pub string_at : Bytes → Fields → Option Bytes
string_at k fs = as_string (at_key k fs)

-- A member that may be absent, and then leaves what was there before.
abbrev pub string_or : Bytes → Bytes → Fields → Option Bytes
string_or old k fs = if has_key k fs then string_at k fs else some old
