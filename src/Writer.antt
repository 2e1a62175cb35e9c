-- ===== src/Writer.antt =====
-- horace/simple_session_writer.{h,cc}: the state machine of a session writer. The handlers that a
-- subclass provides are a parameter; the calls of them are logged, the last one first. An operation
-- leaves a state also where it throws.
pub mod Discipline
pub mod Sync
pub mod Reply
use libholmes_horace.Attribute.{Attribute, unsigned_integer, string, timestamp, AttributeList, nil}
use libholmes_horace.Attribute.Ids
use libholmes_horace.Attribute.Order.{insert}
use libholmes_horace.Attribute.Equal.{octets_eq, attribute_eq}
use libholmes_horace.Attribute.Lookup.{find_one, find_unsigned_integer, find_string}
use libholmes_horace.Session.Labels.{channel_session, channel_end, channel_sync, channel_signature}
use libholmes_horace.Record.{is_event, record_eq, Record}
use libholmes_horace.Common.{
  ℕ, ◌+◌, ◌%◌, ◌^◌, Bool, true, false, not, ◌&&◌, Option, none, some, List, [], ◌∷◌, ◌==◌,
  if◌then◌else◌, throw_if, ◌>>=◌, ◌>>◌, bad_cast, undefined_behaviour, horace_error, Result, err,
  ok,
}

-- `handle_session_start`, `handle_session_end`, `handle_sync`, `handle_signature`, `handle_event` and
-- `handle_control`, with their arguments.
pub data Call : Type 0 where
  session_start session_end sync signature event control : Record → Call

pub record SimpleSessionWriter : Type 0 where
  pub srcid : List ℕ
  pub srec : Option Record
  pub seqnum : ℕ
  pub ended : Bool
  pub reply : Option Record
  pub calls : List Call

abbrev pub new_writer : List ℕ → SimpleSessionWriter
new_writer srcid = record {
  srcid = srcid;
  srec = none;
  seqnum = 0;
  ended = true;
  reply = none;
  calls = [];
}

-- The state that an operation leaves, and how it ends.
abbrev pub Ending : Type 0
Ending = SimpleSessionWriter × Result (Unit {0})

abbrev pub finish : SimpleSessionWriter → Ending
finish w = (w, ok tt)

-- An exception of an expression leaves the state as it stands.
unfoldable pub attempt {ℓ} : {A : Type ℓ} → SimpleSessionWriter → Result A → (A → Ending) → Ending
attempt w (err e) k = (w, err e)
attempt w (ok a) k = k a

-- `find_one<timestamp_attribute>(id)`
unfoldable pub as_timestamp : Attribute → Result Attribute
as_timestamp (timestamp id sec nsec) = ok (timestamp id sec nsec)
as_timestamp _ = err bad_cast

unfoldable pub find_timestamp : Record → Result Attribute
unfolding as_timestamp
find_timestamp r = do a ← find_one r.attributes Ids.attrid_ts; as_timestamp a

unfoldable pub same_ts : Record → Record → Result Bool
unfolding find_timestamp
same_ts lhs rhs = do a ← find_timestamp lhs; b ← find_timestamp rhs; ok (attribute_eq a b)

-- `!_srec || !same_ts(*_srec, srec)`
unfoldable pub is_new_session : Option Record → Record → Result Bool
unfolding same_ts
is_new_session none srec = ok true
is_new_session (some old) srec = do same ← same_ts old srec; ok (not same)

unfoldable pub is_repeated : Option Record → Record → Bool
is_repeated none srec = false
is_repeated (some old) srec = record_eq old srec

-- `find_one<string_attribute>(id).clone()`
unfoldable pub clone_string : AttributeList → ℕ → Result Attribute
clone_string l id = do content ← find_string l id; ok (string id content)

unfoldable pub sync_reply : Record → ℕ → Result Record
unfolding clone_string find_timestamp
sync_reply srec seqnum = do
  source ← clone_string srec.attributes Ids.attrid_source
  ts ← find_timestamp srec
  ok (record {
    channel = channel_sync;
    attributes = insert (unsigned_integer Ids.attrid_seqnum seqnum) (insert ts (insert source nil));
  })

-- `_srec->find_one`, where `_srec` may be null.
unfoldable pub reply_from : Option Record → SimpleSessionWriter → Ending
unfolding attempt sync_reply
reply_from none w = (w, err undefined_behaviour)
reply_from (some srec) w =
    attempt w (sync_reply srec w.seqnum) λ reply. (record w { reply = some reply }, ok tt)

-- What `write` refuses before it looks at the channel.
unfoldable pub check : Option Record → Bool → Record → Result (Unit {0})
check none ended r =
    throw_if (not (r.channel == channel_session)) (horace_error "no session in progress")
check (some srec) ended r = throw_if (ended && is_event r) (horace_error "session has ended")

-- `_seqnum = rec.find_one<unsigned_integer_attribute>(attrid_seqnum).content() + 1`
unfoldable pub count_event : Record → SimpleSessionWriter → Ending
unfolding attempt
count_event r w =
    attempt w (find_unsigned_integer r.attributes Ids.attrid_seqnum)
      λ n. (record w { seqnum = (n + 1) % 2 ^ 64 }, ok tt)

module _ (handle : Call → Result (Unit {0})) where
  unfoldable pub call : SimpleSessionWriter → Call → (SimpleSessionWriter → Ending) → Ending
  unfolding attempt
  call w c k = let w' = record w { calls = c ∷ w.calls } in attempt w' (handle c) λ _. k w'

  unfoldable pub process_session_record : SimpleSessionWriter → Record → Ending
  unfolding attempt call is_new_session is_repeated
  process_session_record w srec =
      attempt w (find_string srec.attributes Ids.attrid_source) λ new_srcid.
        if not (octets_eq new_srcid w.srcid)
        then (w, err (horace_error "unexpected source ID in session record"))
        else attempt w (is_new_session w.srec srec) λ is_new.
          if is_new
          then call (record w { srec = some srec; seqnum = 0; ended = false }) (session_start srec)
              finish
          else if is_repeated w.srec srec
          then (w, ok tt)
          else (w, err (horace_error "non-matching start of session record"))

  unfoldable pub process_end_record : SimpleSessionWriter → Record → Ending
  unfolding call
  process_end_record w erec = call w (session_end erec) λ w'. (record w' { ended = true }, ok tt)

  unfoldable pub process_sync_record : SimpleSessionWriter → Record → Ending
  unfolding call reply_from
  process_sync_record w crec = call w (sync crec) (reply_from w.srec)

  unfoldable pub process_event : SimpleSessionWriter → Record → Ending
  unfolding call count_event
  process_event w r = call w (event r) (count_event r)

  -- The `switch` over the channel.
  unfoldable pub dispatch : SimpleSessionWriter → Record → Ending
  unfolding process_session_record process_end_record process_sync_record process_event call
  dispatch w r =
      if r.channel == channel_session
      then process_session_record w r
      else if r.channel == channel_end
      then process_end_record w r
      else if r.channel == channel_sync
      then process_sync_record w r
      else if r.channel == channel_signature
      then call w (signature r) finish
      else if is_event r
      then process_event w r
      else call w (control r) finish

  unfoldable pub write : SimpleSessionWriter → Record → Ending
  unfolding attempt check dispatch
  write w r = attempt w (check w.srec w.ended r) λ _. dispatch w r

unfoldable pub readable : SimpleSessionWriter → Bool
readable w = elim w.reply [ none ↦ false | some _ ↦ true ]

-- `read()`: the reply is moved out.
unfoldable pub read : SimpleSessionWriter → SimpleSessionWriter × Result Record
read w = elim w.reply [
  | none ↦ (w, err (horace_error "no reply record available"))
  | some r ↦ (record w { reply = none }, ok r)
]
