-- ===== src/Objects.antt =====
-- zencan-common/src/objects.rs: types of objects and what is known of a sub object.
use zencan.Base.{ℕ, Bool, true, false, Option, none, some, ◌==◌, if◌then◌else◌}

-- The address of a sub object.
pub record ObjectId : Type 0 where
  pub index : ℕ
  pub sub : ℕ

pub data ObjectCode : Type 0 where
  null domain def_type def_struct var array record_object : ObjectCode

pub object_code_of : ℕ → Option ObjectCode
object_code_of v =
    if v == 0
    then some ObjectCode.null
    else if v == 2
    then some ObjectCode.domain
    else if v == 5
    then some ObjectCode.def_type
    else if v == 6
    then some ObjectCode.def_struct
    else if v == 7
    then some ObjectCode.var
    else if v == 8
    then some ObjectCode.array
    else if v == 9
    then some ObjectCode.record_object
    else none

pub data AccessType : Type 0 where
  ro wo rw_access const_access : AccessType

unfoldable pub is_readable : AccessType → Bool
is_readable AccessType.ro = true
is_readable AccessType.wo = false
is_readable AccessType.rw_access = true
is_readable AccessType.const_access = true

unfoldable pub is_writable : AccessType → Bool
is_writable AccessType.ro = false
is_writable AccessType.wo = true
is_writable AccessType.rw_access = true
is_writable AccessType.const_access = false

pub data PdoMapping : Type 0 where
  unmapped rpdo tpdo both : PdoMapping

pub data DataType : Type 0 where
  boolean int8 int16 int32 u_int8 u_int16 u_int32 real32 : DataType
  visible_string octet_string unicode_string time_of_day time_difference domain : DataType
  other : ℕ → DataType

unfoldable pub is_str : DataType → Bool
is_str DataType.visible_string = true
is_str DataType.octet_string = true
is_str DataType.unicode_string = true
is_str _ = false

-- `matches!(data_type, DataType::Domain)`.
abbrev pub is_domain : DataType → Bool
is_domain DataType.domain = true
is_domain _ = false

pub data_type_of : ℕ → DataType
data_type_of v =
    if v == 1
    then DataType.boolean
    else if v == 2
    then DataType.int8
    else if v == 3
    then DataType.int16
    else if v == 4
    then DataType.int32
    else if v == 5
    then DataType.u_int8
    else if v == 6
    then DataType.u_int16
    else if v == 7
    then DataType.u_int32
    else if v == 8
    then DataType.real32
    else if v == 9
    then DataType.visible_string
    else if v == 0xa
    then DataType.octet_string
    else if v == 0xb
    then DataType.unicode_string
    else if v == 0xf
    then DataType.domain
    else DataType.other v

pub record SubInfo : Type 0 where
  pub size : ℕ
  pub data_type : DataType
  pub access_type : AccessType
  pub pdo_mapping : PdoMapping
  pub persist : Bool

abbrev pub max_sub_number : SubInfo
max_sub_number = record {
  size = 1;
  data_type = DataType.u_int8;
  access_type = AccessType.const_access;
  pdo_mapping = PdoMapping.unmapped;
  persist = false;
}

-- The shape that `new_u32`, `new_u16`, … and `new_visibile_str` share.
abbrev sized : ℕ → DataType → SubInfo
sized size data_type = record {
  size = size;
  data_type = data_type;
  access_type = AccessType.ro;
  pdo_mapping = PdoMapping.unmapped;
  persist = false;
}

abbrev pub new_u32 : SubInfo
new_u32 = sized 4 DataType.u_int32

abbrev pub new_u8 : SubInfo
new_u8 = sized 1 DataType.u_int8
