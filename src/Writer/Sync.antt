-- ===== src/Writer/Sync.antt =====
-- Session records that are sent again, and the sequence numbers of replies.
use libholmes_horace.Attribute.{Attribute}
use libholmes_horace.Attribute.Ids
use libholmes_horace.Attribute.Equal.{octets_eq, attribute_eq_iff, list_comparisons}
use libholmes_horace.Attribute.Lookup.{find_string}
use libholmes_horace.Session.Labels.{channel_session}
use libholmes_horace.Record.{is_event, record_eq, Record}
use libholmes_horace.Writer.{
  Ending, attempt, find_timestamp, same_ts, is_new_session, is_repeated, check, call,
  process_session_record, dispatch, write, SimpleSessionWriter, Call, session_start,
}
use libholmes_horace.Common.{
  ℕ, ◌≡◌, refl, sym, ap, ◌∙◌, inl, inr, Bool, true, false, Option, none, some, List, ◌==◌,
  Bool-cases, test_refl, Result, err, ok,
}

pub attempt-ok {ℓ} :
    {A : Type ℓ} (w w' : SimpleSessionWriter) (m : Result A) (k : A → Ending)
    → attempt w m k ≡ (w', ok tt)
    → (a : A) × (m ≡ ok a) × (k a ≡ (w', ok tt))
unfolding attempt
attempt-ok w w' (err e) k h = cc
attempt-ok w w' (ok a) k h = (a, refl, h)

record_eq_refl : (r : Record) → record_eq r r ≡ true
unfolding record_eq
record_eq_refl r =
    rw (test_refl r.channel, (list_comparisons r.attributes r.attributes).0.1 refl) refl

same_ts_refl : (r : Record) (t : Attribute) → find_timestamp r ≡ ok t → same_ts r r ≡ ok true
unfolding same_ts
same_ts_refl r t e = rw (e, (attribute_eq_iff t t).1 refl) refl

check-session :
    (o : Option Record) (ended : Bool) (r : Record)
    → r.channel ≡ channel_session
    → check o ended r ≡ ok tt
unfolding check is_event
check-session none ended r e = rw (e) refl
check-session (some srec) true r e = rw (e) refl
check-session (some srec) false r e = refl

module _ (handle : Call → Result (Unit {0})) where
  -- A session record passes the checks and is processed.
  write-session :
      (w : SimpleSessionWriter) (r : Record)
      → r.channel ≡ channel_session
      → write handle w r ≡ process_session_record handle w r
  unfolding write dispatch attempt
  write-session w r e =
      let here : (r.channel == channel_session) ≡ true = rw (e) refl in
      rw (check-session w.srec w.ended r e, here) refl

  process_again :
      (w : SimpleSessionWriter) (r : Record) (srcid : List ℕ) (t : Attribute)
      → w.srec ≡ some r
      → find_timestamp r ≡ ok t
      → find_string r.attributes Ids.attrid_source ≡ ok srcid
      → octets_eq srcid w.srcid ≡ true
      → process_session_record handle w r ≡ (w, ok tt)
  unfolding process_session_record attempt is_new_session is_repeated
  process_again w r srcid t last e f same =
      rw (f, same, last, same_ts_refl r t e, record_eq_refl r) refl

  -- A session record with a timestamp that was accepted can be sent again: nothing changes, no
  -- handler is called, and nothing is thrown.
  pub write-again :
      (w w' : SimpleSessionWriter) (r : Record) (t : Attribute)
      → r.channel ≡ channel_session
      → find_timestamp r ≡ ok t
      → write handle w r ≡ (w', ok tt)
      → write handle w' r ≡ (w', ok tt)
  unfolding process_session_record call
  write-again w w' r t e f h =
      let h₀ = sym (write-session w r e) ∙ h in
      let (srcid, found_srcid, h₁) =
        attempt-ok w w' (find_string r.attributes Ids.attrid_source) _ h₀ in
      elim (Bool-cases (octets_eq srcid w.srcid)) [
        | inr differs ↦ (let h' = rw (differs) at h₁ in cc)
        | inl same ↦
            let (is_new, found_new, h₂) =
              attempt-ok w w' (is_new_session w.srec r) _ (rw (same) at h₁) in
            write-session w' r e ∙ elim (Bool-cases is_new) [
              | inl new ↦
                  let (done, handled, h₃) =
                    attempt-ok _ w' (handle (session_start r)) _ (rw (new) at h₂) in
                  let stored : w'.srec ≡ some r = sym (ap (λ x. x.0.srec) h₃) in
                  let owner : w'.srcid ≡ w.srcid = sym (ap (λ x. x.0.srcid) h₃) in
                  process_again w' r srcid t stored f found_srcid (rw (owner) same)
              | inr old ↦ elim (Bool-cases (is_repeated w.srec r)) [
                | inl repeated ↦
                    let unchanged : w ≡ w' = ap (λ x. x.0) (rw (old, repeated) at h₂) in
                    rw unchanged at h₀
                | inr differs ↦ (let h' = rw (old, differs) at h₂ in cc)
              ]
            ]
      ]
