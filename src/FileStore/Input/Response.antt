-- ===== src/FileStore/Input/Response.antt =====
-- The sync responses that the session reader of horace+file takes.
use libholmes_horace.Attribute.Ids
use libholmes_horace.Attribute.Lookup.{find_unsigned_integer, find_string}
use libholmes_horace.Session.Labels.{channel_sync}
use libholmes_horace.Record.{Record}
use libholmes_horace.FileStore.Scanner.{Scan}
use libholmes_horace.FileStore.Input.{find_timespec, check_sync, FileSessionReader}
use libholmes_horace.Common.{
  ℕ, ◌≡◌, refl, ap, ◌∙◌, Bool, true, false, not, ◌||◌, List, ◌==◌, test→eq, throw_if, bind-eq-ok,
  Error, horace_error, Result, ok,
}
use libholmes_horace.Attribute.Equal.{octets_eq, octets_eq→eq}

-- The record is the answer to the sync record that was returned.
pub record Acknowledges (st : FileSessionReader) (r : Record) : Type 0 where
  pub channel : r.channel ≡ channel_sync
  pub awaited : st.awaiting_sync ≡ true
  pub source : find_string r.attributes Ids.attrid_source ≡ ok st.srcid
  pub ts : find_timespec r ≡ ok (st.sec, st.nsec)
  pub seqnum : find_unsigned_integer r.attributes Ids.attrid_seqnum ≡ ok st.seqnum

throw_if_parts : (b : Bool) (e : Error) {u : Unit {0}} → throw_if b e ≡ ok u → b ≡ false
throw_if_parts true e h = cc
throw_if_parts false e h = refl

negated : (b : Bool) → not b ≡ false → b ≡ true
negated true h = refl
negated false h = cc

both : (a b : Bool) → (not a || not b) ≡ false → (a ≡ true) × (b ≡ true)
both true true h = (refl, refl)
both true false h = cc
both false b h = cc

module _ (first_scan : Result Scan) (open_file : List ℕ → Result (List ℕ)) where
  -- What the checks of a sync response establish.
  pub check_sync-Acknowledges :
      (st : FileSessionReader) (r : Record)
      → r.channel ≡ channel_sync
      → check_sync first_scan open_file st r ≡ ok tt
      → Acknowledges st r
  unfolding check_sync
  check_sync-Acknowledges st r channel e =
      let (_, t1, e1) =
        bind-eq-ok
          (throw_if (not st.awaiting_sync)
            (horace_error "unexpected sync response sent to session reader"))
          _ e in
      let (source, found_source, e2) =
        bind-eq-ok (find_string r.attributes Ids.attrid_source) _ e1 in
      let (_, t2, e3) =
        bind-eq-ok
          (throw_if (not (octets_eq source st.srcid))
            (horace_error "incorrect source ID in sync response"))
          _ e2 in
      let (ts, found_ts, e4) = bind-eq-ok (find_timespec r) _ e3 in
      let (_, t3, e5) =
        bind-eq-ok
          (throw_if (not (ts.0 == st.sec) || not (ts.1 == st.nsec))
            (horace_error "incorrect timestamp in sync response"))
          _ e4 in
      let (seqnum, found_seqnum, e6) =
        bind-eq-ok (find_unsigned_integer r.attributes Ids.attrid_seqnum) _ e5 in
      let (_, t4, _) =
        bind-eq-ok
          (throw_if (not (seqnum == st.seqnum))
            (horace_error "incorrect sequence number in sync response"))
          _ e6 in
      let same_source = octets_eq→eq source st.srcid (negated _ (throw_if_parts _ _ t2)) in
      let (same_sec, same_nsec) = both (ts.0 == st.sec) (ts.1 == st.nsec) (throw_if_parts _ _ t3) in
      let same_seqnum = test→eq seqnum st.seqnum (negated _ (throw_if_parts _ _ t4)) in
      record {
        channel = channel;
        awaited = negated st.awaiting_sync (throw_if_parts _ _ t1);
        source = found_source ∙ ap ok same_source;
        ts =
            found_ts
            ∙ ap (λ x. ok (x, ts.1)) (test→eq ts.0 st.sec same_sec)
            ∙ ap (λ x. ok (st.sec, x)) (test→eq ts.1 st.nsec same_nsec);
        seqnum = found_seqnum ∙ ap ok same_seqnum;
      }
