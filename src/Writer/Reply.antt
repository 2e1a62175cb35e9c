-- ===== src/Writer/Reply.antt =====
-- The replies to sync records.
use libholmes_horace.Attribute.{
  attrid, Attribute, compound, unsigned_integer, signed_integer, binary, string, timestamp, boolean,
  unrecognised, AttributeList, nil, cons,
}
use libholmes_horace.Attribute.Ids
use libholmes_horace.Attribute.Order.{order, attrid_less, insert}
use libholmes_horace.Attribute.Lookup.{
  find_loop, find_one, as_unsigned_integer, find_unsigned_integer, find_string,
}
use libholmes_horace.Session.Labels.{channel_session, channel_end, channel_sync, channel_signature}
use libholmes_horace.Record.{is_event, Record}
use libholmes_horace.Writer.{
  attempt, as_timestamp, find_timestamp, clone_string, sync_reply, reply_from, check, count_event,
  call, process_sync_record, process_event, dispatch, write, read, SimpleSessionWriter, Call, sync,
  event,
}
use libholmes_horace.Writer.Sync.{attempt-ok}
use libholmes_horace.Common.{
  ℕ, ◌+◌, ◌%◌, ◌^◌, ◌≡◌, refl, sym, ap, ◌∙◌, inl, inr, Bool, true, false, Option, none, some, List,
  ◌∷◌, arith, ◌==◌, Bool-cases, test→eq, bind-eq-ok, Result, ok,
}

-- What is found has the ID that was looked for.
find_loop-attrid :
    (id : ℕ) (o : Option Attribute) (l : AttributeList) (a : Attribute)
    → ((b : Attribute) → o ≡ some b → attrid b ≡ id)
    → find_loop id o l ≡ ok a
    → attrid a ≡ id
unfolding find_loop
find_loop-attrid id none nil a known e = cc
find_loop-attrid id (some b) nil a known e = let same : some b ≡ some a = cc in known a same
find_loop-attrid id none (cons b l) a known e = elim (Bool-cases (attrid b == id)) [
  | inl t ↦
      find_loop-attrid id (some b) l a
        (λ c f. let same : b ≡ c = cc in rw (← same) (test→eq (attrid b) id t)) (rw (t) at e)
  | inr t ↦ find_loop-attrid id none l a known (rw (t) at e)
]
find_loop-attrid id (some b) (cons c l) a known e = elim (Bool-cases (attrid c == id)) [
  | inl t ↦ (let h = rw (t) at e in cc)
  | inr t ↦ find_loop-attrid id (some b) l a known (rw (t) at e)
]

cast_inv :
    (a t : Attribute)
    → as_timestamp a ≡ ok t
    → attrid a ≡ Ids.attrid_ts
    → (sec nsec : ℕ) × (t ≡ timestamp Ids.attrid_ts sec nsec)
unfolding as_timestamp
cast_inv (compound id l) t e f = absurd (cc)
cast_inv (unsigned_integer id c) t e f = absurd (cc)
cast_inv (signed_integer id c) t e f = absurd (cc)
cast_inv (binary id c) t e f = absurd (cc)
cast_inv (string id c) t e f = absurd (cc)
cast_inv (timestamp id sec nsec) t e f = (sec, nsec, cc)
cast_inv (boolean id c) t e f = absurd (cc)
cast_inv (unrecognised id c) t e f = absurd (cc)

find_timestamp_inv :
    (r : Record) (t : Attribute)
    → find_timestamp r ≡ ok t
    → (sec nsec : ℕ) × (t ≡ timestamp Ids.attrid_ts sec nsec)
unfolding find_timestamp find_one
find_timestamp_inv r t e =
    let (a, found, cast) = bind-eq-ok (find_loop Ids.attrid_ts none r.attributes) _ e in
    cast_inv a t cast (find_loop-attrid Ids.attrid_ts none r.attributes a (λ b f. cc) found)

seqnum_of_reply :
    (content : List ℕ) (sec nsec m : ℕ)
    → find_unsigned_integer
        (insert (unsigned_integer Ids.attrid_seqnum m) (
          insert
            (timestamp Ids.attrid_ts sec nsec)
            (insert (string Ids.attrid_source content) nil)))
        Ids.attrid_seqnum
      ≡ ok m
unfolding find_unsigned_integer find_one find_loop as_unsigned_integer insert attrid_less order
seqnum_of_reply content sec nsec m = refl

-- A reply has the sequence number that it was made with.
sync_reply-seqnum :
    (srec reply : Record) (m : ℕ)
    → sync_reply srec m ≡ ok reply
    → (reply.channel ≡ channel_sync)
      × (find_unsigned_integer reply.attributes Ids.attrid_seqnum ≡ ok m)
unfolding sync_reply clone_string
sync_reply-seqnum srec reply m e =
    let (source, cloned, e₁) = bind-eq-ok (clone_string srec.attributes Ids.attrid_source) _ e in
    let (content, _, e₂) = bind-eq-ok (find_string srec.attributes Ids.attrid_source) _ cloned in
    let (t, found, e₃) = bind-eq-ok (find_timestamp srec) _ e₁ in
    let (sec, nsec, is_ts) = find_timestamp_inv srec t found in
    let attributes : reply.attributes
        ≡ insert (unsigned_integer Ids.attrid_seqnum m) (
            insert (timestamp Ids.attrid_ts sec nsec)
              (insert (string Ids.attrid_source content) nil)) =
      cc in
    (cc, rw (attributes) (seqnum_of_reply content sec nsec m))

event-channel :
    (r : Record)
    → is_event r ≡ true
    → ((r.channel == channel_session) ≡ false)
      × ((r.channel == channel_end) ≡ false)
      × ((r.channel == channel_sync) ≡ false)
      × ((r.channel == channel_signature) ≡ false)
unfolding is_event
event-channel r e = (ground arith, ground arith, ground arith, ground arith)

check-sync :
    (o : Option Record) (ended : Bool) (c srec : Record)
    → o ≡ some srec
    → c.channel ≡ channel_sync
    → check o ended c ≡ ok tt
unfolding check is_event
check-sync none ended c srec e f = cc
check-sync (some s) true c srec e f = rw (f) refl
check-sync (some s) false c srec e f = refl

module _ (handle : Call → Result (Unit {0})) where
  dispatch-event :
      (w : SimpleSessionWriter) (r : Record)
      → is_event r ≡ true
      → dispatch handle w r ≡ process_event handle w r
  unfolding dispatch
  dispatch-event w r e = let (s, n, y, g) = event-channel r e in rw (s, n, y, g, e) refl

  dispatch-sync :
      (w : SimpleSessionWriter) (r : Record)
      → r.channel ≡ channel_sync
      → dispatch handle w r ≡ process_sync_record handle w r
  unfolding dispatch
  dispatch-sync w r e = rw (e) refl

  write-event :
      (w w' : SimpleSessionWriter) (r : Record) (n : ℕ)
      → is_event r ≡ true
      → find_unsigned_integer r.attributes Ids.attrid_seqnum ≡ ok n
      → write handle w r ≡ (w', ok tt)
      → record w { seqnum = (n + 1) % 2 ^ 64; calls = event r ∷ w.calls } ≡ w'
  unfolding write process_event call count_event attempt
  write-event w w' r n e f h =
      let (_, passed, h₁) = attempt-ok w w' (check w.srec w.ended r) _ h in
      let h₂ = sym (dispatch-event w r e) ∙ h₁ in
      let (_, handled, h₃) = attempt-ok _ w' (handle (event r)) _ h₂ in ap (λ x. x.0) (rw (f) at h₃)

  -- In a session, an event with the sequence number `n` that is written, and then a sync record
  -- whose handler does not throw, leave a reply that `read` returns once, and whose sequence number
  -- is the one after `n`, as a uint64_t; `sync_reply` is what the session record allows a reply to
  -- be made of.
  pub read-write_sync :
      (w w' : SimpleSessionWriter) (srec r c reply : Record) (n : ℕ)
      → w.srec ≡ some srec
      → is_event r ≡ true
      → find_unsigned_integer r.attributes Ids.attrid_seqnum ≡ ok n
      → write handle w r ≡ (w', ok tt)
      → c.channel ≡ channel_sync
      → handle (sync c) ≡ ok tt
      → sync_reply srec ((n + 1) % 2 ^ 64) ≡ ok reply
      → (write handle w' c ≡ (record w' { reply = some reply; calls = sync c ∷ w'.calls }, ok tt))
        × (read (write handle w' c).0
            ≡ (record w' { reply = none; calls = sync c ∷ w'.calls }, ok reply))
        × (find_unsigned_integer reply.attributes Ids.attrid_seqnum ≡ ok ((n + 1) % 2 ^ 64))
  unfolding write process_sync_record call reply_from attempt read
  read-write_sync w w' srec r c reply n opened e f h sync_channel handled made =
      let after = write-event w w' r n e f h in
      let srec' : w'.srec ≡ some srec = ap (λ x. x.srec) (sym after) ∙ opened in
      let next : w'.seqnum ≡ (n + 1) % 2 ^ 64 = ap (λ x. x.seqnum) (sym after) in
      let allowed : check w'.srec w'.ended c ≡ ok tt =
        check-sync w'.srec w'.ended c srec srec' sync_channel in
      let written : write handle w' c
          ≡ (record w' { reply = some reply; calls = sync c ∷ w'.calls }, ok tt) =
        rw (allowed, dispatch-sync w' c sync_channel, handled, srec', next, made) refl in
      (written, rw (written) refl, (sync_reply-seqnum srec reply _ made).1)
