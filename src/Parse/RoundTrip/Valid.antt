-- ===== src/Parse/RoundTrip/Valid.antt =====
-- The attributes that a session can carry: those that `write` and `parse` have to agree on.
use libholmes_horace.Attribute.{
  Attribute, compound, unsigned_integer, signed_integer, binary, string, timestamp, boolean,
  unrecognised, AttributeList, nil, cons,
}
use libholmes_horace.Attribute.Ids
use libholmes_horace.Attribute.Order.{IsSorted}
use libholmes_horace.Attribute.Encode.{write_list}
use libholmes_horace.Session.{get_attr_type, SessionContext}
use libholmes_horace.Common.{ℕ, ◌^◌, ◌≤◌, ◌<◌, ◌≡◌, List, length, ok}
use libholmes_horace.Common.Words.{IsInt, IsWord64}

-- The ID is an int that the session knows with the type of the attribute's class, the content is
-- in the range of the class, and a length is stored in an int. A timestamp is later than the epoch.
-- The members of a compound attribute stand in canonical order.
abbrev mutual
  pub IsValid : SessionContext → Attribute → Type 0
  IsValid s (compound id l) =
      IsInt id
      × (get_attr_type s id ≡ ok Ids.type_compound)
      × IsSorted l
      × AreValid s l
      × ((octets : List ℕ) × (write_list l ≡ ok octets) × (length octets < 2 ^ 31))
  IsValid s (unsigned_integer id content) =
      IsInt id × (get_attr_type s id ≡ ok Ids.type_unsigned_integer) × IsWord64 content
  IsValid s (signed_integer id content) =
      IsInt id × (get_attr_type s id ≡ ok Ids.type_signed_integer) × IsWord64 content
  IsValid s (binary id content) =
      IsInt id × (get_attr_type s id ≡ ok Ids.type_binary) × (length content < 2 ^ 31)
  IsValid s (string id content) =
      IsInt id × (get_attr_type s id ≡ ok Ids.type_string) × (length content < 2 ^ 31)
  IsValid s (timestamp id sec nsec) =
      IsInt id
      × (get_attr_type s id ≡ ok Ids.type_timestamp)
      × (1 ≤ sec)
      × (sec < 2 ^ 63)
      × (nsec < 2_000_000_000)
  IsValid s (boolean id content) = IsInt id × (get_attr_type s id ≡ ok Ids.type_boolean)
  IsValid s (unrecognised id content) =
      IsInt id
      × ((type : ℕ) × (get_attr_type s id ≡ ok type) × (Ids.type_boolean < type))
      × (length content < 2 ^ 31)

  pub AreValid : SessionContext → AttributeList → Type 0
  AreValid s nil = Unit {0}
  AreValid s (cons a l) = IsValid s a × AreValid s l
