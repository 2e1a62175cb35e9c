-- ===== src/Builder.antt =====
-- horace/session_builder.{h,cc}: the session record of a source, put together from definitions.
pub mod Defined
pub mod Channels
use libholmes_horace.Attribute.{
  compound, unsigned_integer, signed_integer, binary, string, timestamp, AttributeList, nil,
}
use libholmes_horace.Attribute.Ids
use libholmes_horace.Attribute.Order.{insert}
use libholmes_horace.Session.Labels.{channel_session}
use libholmes_horace.Record.{Record}
use libholmes_horace.Common.{
  ℕ, ◌+◌, ◌-◌, ◌^◌, Option, none, some, List, ◌==◌, if◌then◌else◌, ◌>>=◌, undefined_behaviour,
  Result, err, ok,
}
use libholmes_horace.Common.Words.{extend}

-- The attributes, and the numbers of attributes and of channels defined, both ints.
pub record SessionBuilder : Type 0 where
  pub attributes : AttributeList
  pub attr_count : ℕ
  pub chan_count : ℕ

unfoldable pub insert_version : Option ℕ → AttributeList → AttributeList
insert_version none l = l
insert_version (some v) l = insert (unsigned_integer Ids.attrid_protocol v) l

-- The source identifier is checked by its own class; `sec` and `nsec` are the time of the call.
unfoldable pub new_builder : Option ℕ → List ℕ → List ℕ → ℕ → ℕ → SessionBuilder
unfolding insert_version
new_builder protocol_version srcid time_system sec nsec =
    let versioned = insert_version protocol_version nil in
    let timed = insert (string Ids.attrid_time_system time_system) versioned in
    let sourced = insert (string Ids.attrid_source srcid) timed in
    record {
      attributes = insert (timestamp Ids.attrid_ts sec nsec) sourced;
      attr_count = 0;
      chan_count = 0;
    }

-- `count++` on an int.
unfoldable pub increment : ℕ → Result ℕ
increment count = if count == 2 ^ 31 - 1 then err undefined_behaviour else ok (count + 1)

-- The content of a definition of an attribute.
unfoldable pub attr_definition : ℕ → List ℕ → ℕ → AttributeList
attr_definition id label type = insert (unsigned_integer Ids.attrid_type (extend type)) (
    insert (string Ids.attrid_attr_label label)
      (insert (signed_integer Ids.attrid_attr_id (extend id)) nil))

-- The content of a definition of a channel, with the attributes that the caller adds.
unfoldable pub chan_definition : ℕ → List ℕ → AttributeList → AttributeList
chan_definition id label subattrs =
    insert (string Ids.attrid_chan_label label)
      (insert (signed_integer Ids.attrid_chan_id (extend id)) subattrs)

-- The builder and the number that the attribute has got.
unfoldable pub define_attribute : SessionBuilder → List ℕ → ℕ → Result (SessionBuilder × ℕ)
unfolding increment attr_definition
define_attribute b label type = do
  next ← increment b.attr_count
  ok (
    record b {
      attributes =
          insert (compound Ids.attrid_attr_def (attr_definition b.attr_count label type))
            b.attributes;
      attr_count = next;
    },
    b.attr_count,
  )

unfoldable pub define_channel :
    SessionBuilder → List ℕ → AttributeList → Result (SessionBuilder × ℕ)
unfolding increment chan_definition
define_channel b label subattrs = do
  next ← increment b.chan_count
  ok (
    record b {
      attributes =
          insert (compound Ids.attrid_chan_def (chan_definition b.chan_count label subattrs))
            b.attributes;
      chan_count = next;
    },
    b.chan_count,
  )

-- `hash::algorithm`, and `keypair::algorithm` and `keypair::public_key`, give the arguments.
unfoldable pub define_hash : SessionBuilder → List ℕ → SessionBuilder
define_hash b algorithm = record b {
  attributes = insert (string Ids.attrid_hash_alg algorithm) b.attributes;
}

unfoldable pub define_keypair : SessionBuilder → List ℕ → List ℕ → SessionBuilder
define_keypair b algorithm public_key = record b {
  attributes =
      insert (binary Ids.attrid_sig_pubkey public_key)
        (insert (string Ids.attrid_sig_alg algorithm) b.attributes);
}

unfoldable pub build : SessionBuilder → Record
build b = record { channel = channel_session; attributes = b.attributes }
