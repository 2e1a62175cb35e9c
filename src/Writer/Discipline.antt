-- ===== src/Writer/Discipline.antt =====
-- When the handlers are called: events only within a session.
use libholmes_horace.Attribute.Ids
use libholmes_horace.Attribute.Equal.{octets_eq}
use libholmes_horace.Attribute.Lookup.{find_unsigned_integer, find_string}
use libholmes_horace.Record.{is_event, Record}
use libholmes_horace.Writer.{
  new_writer, Ending, finish, attempt, is_new_session, is_repeated, sync_reply, reply_from, check,
  count_event, call, process_session_record, process_end_record, process_sync_record, process_event,
  dispatch, write, SimpleSessionWriter, Call, session_start, session_end, sync, signature, event,
  control,
}
use libholmes_horace.Common.{
  ℕ, ◌≡◌, refl, Bool, true, false, not, Option, none, some, List, [], ◌∷◌, arith, ◌==◌, if-cases,
  Error, Result, err, ok,
}
use libholmes_horace.Session.Labels.{channel_session, channel_end, channel_sync, channel_signature}

-- The last start or end of a session in the log is a start.
unfoldable pub is_open : List Call → Bool
is_open [] = false
is_open (session_start r ∷ calls) = true
is_open (session_end r ∷ calls) = false
is_open (sync r ∷ calls) = is_open calls
is_open (signature r ∷ calls) = is_open calls
is_open (event r ∷ calls) = is_open calls
is_open (control r ∷ calls) = is_open calls

-- Each event in the log follows a start of a session that has not ended.
abbrev pub IsDisciplined : List Call → Type 0
IsDisciplined [] = Unit {0}
IsDisciplined (event r ∷ calls) = (is_open calls ≡ true) × IsDisciplined calls
IsDisciplined (session_start r ∷ calls) = IsDisciplined calls
IsDisciplined (session_end r ∷ calls) = IsDisciplined calls
IsDisciplined (sync r ∷ calls) = IsDisciplined calls
IsDisciplined (signature r ∷ calls) = IsDisciplined calls
IsDisciplined (control r ∷ calls) = IsDisciplined calls

-- The flag says whether the log is in a session; without a session record there is none.
pub record IsSound (w : SimpleSessionWriter) : Type 0 where
  pub flag : w.ended ≡ not (is_open w.calls)
  pub disciplined : IsDisciplined w.calls
  pub before : w.srec ≡ none → w.ended ≡ true

attempt-cases {ℓ κ} :
    {A : Type ℓ} (Q : Ending → Type κ) (w : SimpleSessionWriter) (m : Result A) (k : A → Ending)
    → ((e : Error) → Q (w, err e))
    → ((a : A) → m ≡ ok a → Q (k a))
    → Q (attempt w m k)
unfolding attempt
attempt-cases Q w (err e) k failed went_on = failed e
attempt-cases Q w (ok a) k failed went_on = went_on a refl

not-inv : (b : Bool) → not b ≡ false → b ≡ true
not-inv true e = refl
not-inv false e = cc

-- A record that passes the checks is an event only while a session is running.
check-running :
    (o : Option Record) (ended : Bool) (r : Record)
    → check o ended r ≡ ok tt
    → is_event r ≡ true
    → ended ≡ false
unfolding check is_event
check-running none ended r e h = ground arith
check-running (some srec) true r e h = cc (e, h)
check-running (some srec) false r e h = refl

abbrev EndsSound : Ending → Type 0
EndsSound e = IsSound e.0

module _ (handle : Call → Result (Unit {0})) where
  call-IsSound :
      (w : SimpleSessionWriter) (c : Call) (k : SimpleSessionWriter → Ending)
      → IsSound (record w { calls = c ∷ w.calls })
      → EndsSound (k (record w { calls = c ∷ w.calls }))
      → EndsSound (call handle w c k)
  unfolding call
  call-IsSound w c k logged after =
      attempt-cases EndsSound (record w { calls = c ∷ w.calls }) (handle c) _ (λ e. logged)
        λ _ _. after

  process_session_record-IsSound :
      (w : SimpleSessionWriter) (r : Record)
      → IsSound w
      → EndsSound (process_session_record handle w r)
  unfolding process_session_record is_open
  process_session_record-IsSound w r s =
      let started : IsSound (record w {
        srec = some r;
        seqnum = 0;
        ended = false;
        calls = session_start r ∷ w.calls;
      }) =
        record { flag = refl; disciplined = s.disciplined; before = λ e. cc } in
      attempt-cases EndsSound w (find_string r.attributes Ids.attrid_source) _ (λ e. s)
        λ new_srcid _.
          if-cases EndsSound (not (octets_eq new_srcid w.srcid)) _ _ (λ _. s)
            λ _.
              attempt-cases EndsSound w (is_new_session w.srec r) _ (λ e. s)
                λ is_new _.
                  if-cases EndsSound is_new _ _
                    (λ _. call-IsSound _ (session_start r) finish started started)
                    λ _. if-cases EndsSound (is_repeated w.srec r) _ _ (λ _. s) (λ _. s)

  reply_from-IsSound :
      (o : Option Record) (w : SimpleSessionWriter) → IsSound w → EndsSound (reply_from o w)
  unfolding reply_from
  reply_from-IsSound none w s = s
  reply_from-IsSound (some srec) w s =
      attempt-cases EndsSound w (sync_reply srec w.seqnum) _ (λ e. s)
        λ reply _. record { flag = s.flag; disciplined = s.disciplined; before = s.before }

  process_end_record-IsSound :
      (w : SimpleSessionWriter) (r : Record)
      → handle (session_end r) ≡ ok tt
      → IsSound w
      → EndsSound (process_end_record handle w r)
  unfolding process_end_record call attempt is_open
  process_end_record-IsSound w r succeeds s =
      rw (succeeds) (record { flag = refl; disciplined = s.disciplined; before = λ e. refl })

  count_event-IsSound :
      (r : Record) (w : SimpleSessionWriter) → IsSound w → EndsSound (count_event r w)
  unfolding count_event
  count_event-IsSound r w s =
      attempt-cases EndsSound w (find_unsigned_integer r.attributes Ids.attrid_seqnum) _ (λ e. s)
        λ n _. record { flag = s.flag; disciplined = s.disciplined; before = s.before }

  process_event-IsSound :
      (w : SimpleSessionWriter) (r : Record)
      → w.ended ≡ false
      → IsSound w
      → EndsSound (process_event handle w r)
  unfolding process_event is_open
  process_event-IsSound w r running s =
      let opened : is_open w.calls ≡ true = not-inv _ (rw (← s.flag) running) in
      let logged : IsSound (record w { calls = event r ∷ w.calls }) = record {
        flag = s.flag;
        disciplined = (opened, s.disciplined);
        before = s.before;
      } in
      call-IsSound w (event r) (count_event r) logged (count_event-IsSound r _ logged)

  -- A call of a handler that neither starts nor ends a session and is not of an event.
  quiet-IsSound :
      (w : SimpleSessionWriter) (c : Call) (k : SimpleSessionWriter → Ending)
      → is_open (c ∷ w.calls) ≡ is_open w.calls
      → IsDisciplined (c ∷ w.calls)
      → IsSound w
      → ((w' : SimpleSessionWriter) → IsSound w' → EndsSound (k w'))
      → EndsSound (call handle w c k)
  quiet-IsSound w c k same d s after =
      let logged : IsSound (record w { calls = c ∷ w.calls }) = record {
        flag = rw (same) s.flag;
        disciplined = d;
        before = s.before;
      } in
      call-IsSound w c k logged (after _ logged)

  dispatch-IsSound :
      (w : SimpleSessionWriter) (r : Record)
      → handle (session_end r) ≡ ok tt
      → (is_event r ≡ true → w.ended ≡ false)
      → IsSound w
      → EndsSound (dispatch handle w r)
  unfolding dispatch process_sync_record is_open
  dispatch-IsSound w r succeeds running s =
      if-cases EndsSound (r.channel == channel_session) _ _
        (λ _. process_session_record-IsSound w r s)
        λ _.
          if-cases EndsSound (r.channel == channel_end) _ _
            (λ _. process_end_record-IsSound w r succeeds s)
            λ _.
              if-cases EndsSound (r.channel == channel_sync) _ _
                (λ _.
                  quiet-IsSound w (sync r) (reply_from w.srec) refl s.disciplined s
                    λ w' s'. reply_from-IsSound w.srec w' s')
                λ _.
                  if-cases EndsSound (r.channel == channel_signature) _ _
                    (λ _. quiet-IsSound w (signature r) finish refl s.disciplined s λ w' s'. s')
                    λ _.
                      if-cases EndsSound (is_event r) _ _
                        (λ e. process_event-IsSound w r (running e) s)
                        λ _. quiet-IsSound w (control r) finish refl s.disciplined s λ w' s'. s'

  -- While no handler of the end of a session throws, `write` keeps a writer sound, whether it
  -- returns or throws: the handler of events is called only for records between a start of a session
  -- and its end.
  pub write-IsSound :
      (w : SimpleSessionWriter) (r : Record)
      → handle (session_end r) ≡ ok tt
      → IsSound w
      → IsSound (write handle w r).0
  unfolding write
  write-IsSound w r succeeds s =
      attempt-cases EndsSound w (check w.srec w.ended r) _ (λ e. s)
        λ _ passed. dispatch-IsSound w r succeeds (check-running w.srec w.ended r passed) s

-- A new writer is sound.
pub new_writer-IsSound : (srcid : List ℕ) → IsSound (new_writer srcid)
unfolding is_open
new_writer-IsSound srcid = record { flag = refl; disciplined = tt; before = λ e. refl }
