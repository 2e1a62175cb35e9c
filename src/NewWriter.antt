-- ===== src/NewWriter.antt =====
-- horace/new_session_writer.{h,cc} and horace/event_signer.{h,cc}: a session that is captured is
-- written to an endpoint, with sequence numbers, a chain of hashes, and signatures. The session
-- writer of the endpoint, the hash function and the key pair are parameters. Each operation holds
-- the mutex from its start to its end. A state is left also where an operation throws.
pub mod Accepted
pub mod Chain
pub mod Session
use libholmes_horace.Attribute.{unsigned_integer, binary, timestamp, AttributeList, nil}
use libholmes_horace.Attribute.Ids
use libholmes_horace.Attribute.Order.{insert}
use libholmes_horace.Session.Labels.{channel_end, channel_signature}
use libholmes_horace.Record.{Record}
use libholmes_horace.Record
use libholmes_horace.Builder.{define_hash, SessionBuilder}
use libholmes_horace.Common.{
  ℕ, ◌+◌, ◌%◌, ◌^◌, Bool, true, false, not, Option, none, some, List, [], ◌∷◌, ◌++◌, if◌then◌else◌,
  throw_if, ◌>>◌, undefined_behaviour, terminate_exception, other_exception, Result, err, ok,
}

-- How the session writer of an endpoint answers to a record. Where it accepts the record, `writable`
-- is what it then answers to `writable()`.
pub data Answer : Type 0 where
  accepted : (writable : Bool) → Answer
  failed terminated : Answer

-- `_seqnum` and `_hash` of the signer, of which `_hash` is empty when there is nothing to sign, and
-- the local `sig_seqnum` and `sig_hash` of `_run`, from when they are taken until they are signed.
pub record EventSigner : Type 0 where
  pub seqnum : ℕ
  pub hash : List ℕ
  pub pending : Option (ℕ × List ℕ)

-- `connected` says that `_sw` is not null, and `hattr` is the content of `_hattr`. `written` has the
-- records that the endpoint has accepted, the last one first; `alarms` counts the signals sent.
pub record NewSessionWriter : Type 0 where
  pub connected : Bool
  pub srec : Option Record
  pub seqnum : ℕ
  pub session_hash : List ℕ
  pub hattr : Option (List ℕ)
  pub signer : Option EventSigner
  pub written : List Record
  pub alarms : ℕ

abbrev pub Ending : Type 0
Ending = NewSessionWriter × Result (Unit {0})

abbrev pub done : NewSessionWriter → Ending
done w = (w, ok tt)

-- The rest of an operation follows where the first part returns.
unfoldable pub before : Ending → (NewSessionWriter → Ending) → Ending
before (w, err e) k = (w, err e)
before (w, ok _) k = k w

-- An exception of an expression leaves the state as it stands.
unfoldable pub attempt {ℓ} : {A : Type ℓ} → NewSessionWriter → Result A → (A → Ending) → Ending
attempt w (err e) k = (w, err e)
attempt w (ok a) k = k a

-- `define_hash`, where there is a hash function, whose algorithm is given.
unfoldable pub define_session_hash : Option (List ℕ) → SessionBuilder → SessionBuilder
define_session_hash none sb = sb
define_session_hash (some algorithm) sb = define_hash sb algorithm

-- The constructor; the endpoint may be one that cannot receive sessions.
unfoldable pub new_session_writer :
    Bool → Option (List ℕ) → SessionBuilder → SessionBuilder × Result NewSessionWriter
unfolding define_session_hash
new_session_writer receives algorithm sb = (
  define_session_hash algorithm sb,
  (throw_if (not receives) other_exception
      >> ok (record {
        connected = true;
        srec = none;
        seqnum = 0;
        session_hash = [];
        hattr = none;
        signer = none;
        written = [];
        alarms = 0;
      })),
)

unfoldable pub attach_signer : EventSigner → NewSessionWriter → NewSessionWriter
attach_signer signer w = record w { signer = some signer }

unfoldable pub insert_hash : Option (List ℕ) → AttributeList → AttributeList
insert_hash none l = l
insert_hash (some h) l = insert (binary Ids.attrid_hash h) l

unfoldable pub insert_seqnum : Option ℕ → AttributeList → AttributeList
insert_seqnum none l = l
insert_seqnum (some n) l = insert (unsigned_integer Ids.attrid_seqnum n) l

-- `handle_event` of an attached signer.
unfoldable pub offer : ℕ → List ℕ → Option EventSigner → Option EventSigner
offer n h none = none
offer n h (some s) = some (record s { seqnum = n; hash = h })

-- The record of an event, with its sequence number and the hash of the event before.
unfoldable pub numbered : NewSessionWriter → Record → Record
unfolding insert_hash
numbered w r = record {
  channel = r.channel;
  attributes =
      insert_hash w.hattr (insert (unsigned_integer Ids.attrid_seqnum w.seqnum) r.attributes);
}

module _ (answer : List Record → Record → Answer) (sign : List ℕ → List ℕ) where
  -- `make_signature`
  unfoldable pub make_signature : Option ℕ → List ℕ → Record
  unfolding insert_seqnum
  make_signature n h = record {
    channel = channel_signature;
    attributes = insert (binary Ids.attrid_sig (sign h)) (insert_seqnum n nil);
  }

  unfoldable pub accept : Record → NewSessionWriter → NewSessionWriter
  accept r w = record w { written = r ∷ w.written }

  unfoldable pub answered : Answer → Record → NewSessionWriter → Ending
  unfolding accept
  answered (accepted writable) r w = (accept r w, ok tt)
  answered failed r w = (w, err other_exception)
  answered terminated r w = (w, err terminate_exception)

  -- `_sw->write(r)`
  unfoldable pub send : Record → NewSessionWriter → Ending
  unfolding answered
  send r w = if w.connected then answered (answer w.written r) r w else (w, err undefined_behaviour)

  -- One round of the loop in `_write`, without the log messages. After an exception `_sw` is null,
  -- and `_sw->writable()` is called all the same.
  unfoldable pub retried : Answer → Record → NewSessionWriter → Ending
  unfolding accept
  retried (accepted true) r w = (accept r w, ok tt)
  retried (accepted false) r w = (record (accept r w) { alarms = w.alarms + 1 }, ok tt)
  retried failed r w = (record w { connected = false }, err undefined_behaviour)
  retried terminated r w = (w, err terminate_exception)

  -- `_write`. Its loop has no second round, since `_sw` is null whenever `retry` is set.
  unfoldable pub write_retrying : Record → NewSessionWriter → Ending
  unfolding retried
  write_retrying r w =
      if w.connected then retried (answer w.written r) r w else (w, err undefined_behaviour)

  -- `write_signature`
  unfoldable pub write_signature : Record → NewSessionWriter → Ending
  unfolding write_retrying
  write_signature r w = write_retrying r w

  -- The signature of the session record, where there is a signer.
  unfoldable pub sign_session : Option EventSigner → List ℕ → NewSessionWriter → Ending
  unfolding send make_signature
  sign_session none h w = done w
  sign_session (some s) h w = send (make_signature none h) w

  -- The signature of the end record.
  unfoldable pub sign_end : Option EventSigner → List ℕ → NewSessionWriter → Ending
  unfolding send make_signature
  sign_end none h w = done w
  sign_end (some s) h w = send (make_signature (some w.seqnum) h) w

  module _ (hashfn : Option (List ℕ → List ℕ)) where
    -- `if (_hashfn) { … }` in `begin_session`
    unfoldable pub hash_session : Option (List ℕ → List ℕ) → Record → NewSessionWriter → Ending
    unfolding attempt sign_session
    hash_session none r w = done w
    hash_session (some hash) r w =
        attempt w (Record.write r)
          λ octets. sign_session w.signer (hash octets) (record w { session_hash = hash octets })

    unfoldable pub begin_session : Record → NewSessionWriter → Ending
    unfolding before send hash_session
    begin_session r w = before (send r (record w { srec = some r })) (hash_session hashfn r)

    -- `if (_hashfn) { … }` in `write_event`
    unfoldable pub hash_event : Option (List ℕ → List ℕ) → Record → NewSessionWriter → Ending
    unfolding attempt offer
    hash_event none r w = done w
    hash_event (some hash) r w = attempt w (Record.write r) λ octets.
        let h = hash (w.session_hash ++ octets) in
        done (record w { hattr = some h; signer = offer w.seqnum h w.signer })

    -- `_seqnum++`
    unfoldable pub next_number : NewSessionWriter → Ending
    next_number w = done (record w { seqnum = (w.seqnum + 1) % 2 ^ 64 })

    -- The hash attribute moves into the record, so it is gone whatever follows.
    unfoldable pub write_event : Record → NewSessionWriter → Ending
    unfolding before write_retrying hash_event next_number numbered
    write_event r w =
        let nrec = numbered w r in
        before (before (write_retrying nrec (record w { hattr = none })) (hash_event hashfn nrec))
          next_number

    -- The end record; `sec` and `nsec` are the time of the call.
    unfoldable pub end_record : ℕ → ℕ → NewSessionWriter → Record
    unfolding insert_hash
    end_record sec nsec w = record {
      channel = channel_end;
      attributes = insert_hash w.hattr (
          insert (unsigned_integer Ids.attrid_seqnum w.seqnum)
            (insert (timestamp Ids.attrid_ts sec nsec) nil));
    }

    -- `if (_hashfn) { … }` in `end_session`
    unfoldable pub hash_end : Option (List ℕ → List ℕ) → Record → NewSessionWriter → Ending
    unfolding attempt sign_end
    hash_end none r w = done w
    hash_end (some hash) r w =
        attempt w (Record.write r) λ octets. sign_end w.signer (hash (w.session_hash ++ octets)) w

    unfoldable pub end_session : ℕ → ℕ → NewSessionWriter → Ending
    unfolding before send hash_end end_record
    end_session sec nsec w =
        if w.connected
        then (let erec = end_record sec nsec w in
            before (before (send erec (record w { hattr = none })) (hash_end hashfn erec))
              λ w'. done (record w' { connected = false }))
        else done w
