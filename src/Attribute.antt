-- ===== src/Attribute.antt =====
-- horace/attribute.h, horace/attribute_list.{h,cc} and the attribute classes. An attribute is a
-- value of one of the classes, with its ID, an int, in front. An attribute list is the vector
-- `_attributes`; which of its members the list owns makes no difference to what it holds.
pub mod Ids
pub mod Order
pub mod Lookup
pub mod Equal
pub mod Encode
use libholmes_horace.Common.{ℕ, suc, Bool, List}

-- A string, a hash or any other octets are a list of numbers below 256. The timestamp holds its
-- tv_sec and tv_nsec. A binary_ref_attribute is a binary_attribute whose octets stand elsewhere.
mutual
  pub data Attribute : Type 0 where
    compound : ℕ → AttributeList → Attribute
    unsigned_integer : ℕ → ℕ → Attribute
    signed_integer : ℕ → ℕ → Attribute
    binary : ℕ → List ℕ → Attribute
    string : ℕ → List ℕ → Attribute
    timestamp : ℕ → ℕ → ℕ → Attribute
    boolean : ℕ → Bool → Attribute
    unrecognised : ℕ → List ℕ → Attribute

  pub data AttributeList : Type 0 where
    nil : AttributeList
    cons : Attribute → AttributeList → AttributeList

abbrev pub attrid : Attribute → ℕ
attrid (compound id content) = id
attrid (unsigned_integer id content) = id
attrid (signed_integer id content) = id
attrid (binary id content) = id
attrid (string id content) = id
attrid (timestamp id sec nsec) = id
attrid (boolean id content) = id
attrid (unrecognised id content) = id

abbrev pub append : AttributeList → AttributeList → AttributeList
append nil m = m
append (cons a l) m = cons a (append l m)

abbrev pub size : AttributeList → ℕ
size nil = 0
size (cons a l) = suc (size l)
