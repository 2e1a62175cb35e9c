-- ===== src/Tests/Attributes.antt =====
-- Attributes and attribute lists, at concrete values.
use libholmes_horace.Attribute
use libholmes_horace.Attribute.{
  append, Attribute, unsigned_integer, string, AttributeList, nil, cons,
}
use libholmes_horace.Attribute.Ids
use libholmes_horace.Attribute.Order
use libholmes_horace.Common.{◌≡◌, [], ◌∷◌, arith}

abbrev seqnum : Attribute.Attribute
seqnum = unsigned_integer Ids.attrid_seqnum 5

abbrev greeting : Attribute.Attribute
greeting = string 0 (0x68 ∷ 0x69 ∷ [])

-- A reserved ID and then one that is not.
abbrev members : AttributeList
members = cons seqnum (cons greeting nil)

abbrev source : Attribute.Attribute
source = string Ids.attrid_source (0x61 ∷ [])

-- The reserved ID precedes the other.
members-IsOrdered : Order.Placed.IsOrdered members
members-IsOrdered = ((λ before. ground arith, tt), (tt, tt))

insert_placed_example :
    (front back : AttributeList) × (members ≡ append front back)
    × (Order.insert source members ≡ append front (cons source back))
    × Order.Placed.BeforeNone Ids.attrid_source front
    × Order.Placed.BeforeAll Ids.attrid_source back
insert_placed_example =
    Order.Placed.insert_placed source members (omega arith) (omega arith, (omega arith, tt))
      members-IsOrdered
