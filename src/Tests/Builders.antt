-- ===== src/Tests/Builders.antt =====
-- A session builder, at concrete definitions.
use libholmes_horace.Attribute.{compound, string, AttributeList, nil, cons}
use libholmes_horace.Attribute.Ids
use libholmes_horace.Attribute.Lookup
use libholmes_horace.Attribute.Order.{insert}
use libholmes_horace.Session.{empty_session, get_attr_type, SessionContext}
use libholmes_horace.Session.Labels.{get_attr_label, get_channel_label}
use libholmes_horace.Record.{handle_definition}
use libholmes_horace.Builder
use libholmes_horace.Builder.{SessionBuilder}
use libholmes_horace.Common.{ℕ, ◌+◌, ◌^◌, ◌<◌, ◌≡◌, refl, false, List, [], ◌∷◌, arith, ok}

abbrev started : SessionBuilder
started = record { attributes = nil; attr_count = 2; chan_count = 0 }

abbrev word : List ℕ
word = 0x68 ∷ 0x69 ∷ []

abbrev with_attribute : SessionBuilder
with_attribute = record started {
  attributes =
      insert (compound Ids.attrid_attr_def (Builder.attr_definition 2 word Ids.type_string)) nil;
  attr_count = 3;
}

abbrev subattrs : AttributeList
subattrs = cons (string 0 word) nil

abbrev with_channel : SessionBuilder
with_channel = record started {
  attributes = insert (compound Ids.attrid_chan_def (Builder.chan_definition 0 word subattrs)) nil;
  chan_count = 1;
}

attribute_made : Builder.define_attribute started word Ids.type_string ≡ ok (with_attribute, 2)
unfolding Builder.define_attribute Builder.increment
attribute_made = refl

channel_made : Builder.define_channel started word subattrs ≡ ok (with_channel, 0)
unfolding Builder.define_channel Builder.increment
channel_made = refl

no_number : Lookup.contains subattrs Ids.attrid_chan_id ≡ false
unfolding Lookup.contains
no_number = refl

no_label : Lookup.contains subattrs Ids.attrid_chan_label ≡ false
unfolding Lookup.contains
no_label = refl

define_attribute-handled_example :
    (◌≡◌ {A = ℕ} 2 started.attr_count)
    × (with_attribute.attr_count ≡ 2 + 1)
    × (3 < 2 ^ 31)
    × ((content : AttributeList) × (s' : SessionContext) × (with_attribute.attributes
          ≡ insert (compound Ids.attrid_attr_def content) nil)
        × (handle_definition empty_session (compound Ids.attrid_attr_def content) ≡ ok s')
        × (get_attr_type s' 2 ≡ ok Ids.type_string)
        × (get_attr_label s' 2 ≡ ok word))
define_attribute-handled_example =
    Builder.Defined.define_attribute-handled started with_attribute word Ids.type_string 2
      empty_session (omega arith) (omega arith) attribute_made

define_channel-handled_example :
    (◌≡◌ {A = ℕ} 0 started.chan_count)
    × (with_channel.chan_count ≡ 0 + 1)
    × (1 < 2 ^ 31)
    × ((content : AttributeList) × (s' : SessionContext) × (with_channel.attributes
          ≡ insert (compound Ids.attrid_chan_def content) nil)
        × (handle_definition empty_session (compound Ids.attrid_chan_def content) ≡ ok s')
        × (get_channel_label s' 0 ≡ ok word))
define_channel-handled_example =
    Builder.Channels.define_channel-handled started with_channel word subattrs 0 empty_session
      (omega arith) no_number no_label channel_made
