-- ===== src/FileStore/Output/Order.antt =====
-- The session writer of horace+file keeps the records that it is given, in their order.
use libholmes_horace.Record.{Record}
use libholmes_horace.FileStore.Spoolfile.{ulong_max, from_filenum}
use libholmes_horace.FileStore.Output.{
  new_spoolfile_writer, write_spoolfile, Ending, close, write_current, write_to_new, session_of,
  and_then, opened, write_first, begin_spoolfile, write_record, write_in_session, sync_spoolfile,
  handle, run, SpoolfileWriter, FileSessionWriter,
}
use libholmes_horace.FileStore.Output.Contents.{
  Entry, Stored, InForce, payload, files, after_write-cases, started,
}
use libholmes_horace.FileStore.Output.Lengths.{IsStorable}
use libholmes_horace.Common.{
  ℕ, ◌+◌, ◌^◌, ◌<◌, ◌≡◌, refl, sym, ap, ◌∙◌, Bool, Option, none, some, List, [], ◌∷◌, ◌++◌,
  append_assoc, append-nil, ◌==◌, if-cases, All, undefined_behaviour, endpoint_error, Result, err,
  ok,
}
use libholmes_horace.Writer.{Call, session_start, session_end, sync, signature, event, control}
use libholmes_horace.FileStore.Output.Added.{
  added, all_added, CallIsStorable, SessionIsStorable, session_of-SessionIsStorable, Extends, Ready,
  failed, current-Extends, session_after,
}

module _ (create : List ℕ → Result (Unit {0})) (filesize : ℕ) (ep_writable : Bool)
    (bounded : filesize < 2 ^ 63) where
  opened-Extends :
      (s : Option Record) (w : FileSessionWriter) (filename : List ℕ) (x : Result (Unit {0}))
      (rest : FileSessionWriter → Ending) (es : List Entry) (rs : List (Record × Record))
      → Extends filesize s es rs (
          rest (record w {
            spoolfile = some (new_spoolfile_writer filename filesize);
            closed = files w;
          }))
      → Extends filesize s es rs (opened create filesize ep_writable w filename x rest)
  unfolding opened
  opened-Extends s w filename (err e) rest es rs h = failed filesize s es rs w e
  opened-Extends s w filename (ok _) rest es rs h = h

  write_first-Extends :
      (srec : Record) (s : Option Record) (w : FileSessionWriter) (filename : List ℕ)
      (fs : List SpoolfileWriter) (rest : FileSessionWriter → Ending) (es : List Entry)
      (rs : List (Record × Record))
      → IsStorable srec
      → Stored filesize fs es
      → ((w' : FileSessionWriter)
          → Ready filesize (some srec) es w'
          → Extends filesize s es rs (rest w'))
      → Extends filesize s es rs (
          write_first create filesize ep_writable srec rest
            (record w { spoolfile = some (new_spoolfile_writer filename filesize); closed = fs }))
  unfolding write_first write_current close
  write_first-Extends srec s w filename fs rest es rs storable h k =
      let w' : FileSessionWriter = record w {
        spoolfile = some (new_spoolfile_writer filename filesize);
        closed = fs;
      } in
      after_write-cases (Extends filesize s es rs) w'
        (write_spoolfile srec (new_spoolfile_writer filename filesize))
        (λ v. rest (record v { writable = ep_writable }))
        (λ v. (v, err (endpoint_error "failed to write session record to new spoolfile")))
        (λ e _. failed filesize s es rs w' e)
        (λ f written.
          let (stored, same) = started filesize srec filename f fs es bounded storable written h in
          k (record w' { spoolfile = some f; writable = ep_writable })
            ((srec, []) ∷ es, stored, refl, same))
        (λ f _. failed filesize s es rs w' _)

  begin_spoolfile-Extends :
      (srec : Record) (s : Option Record) (w : FileSessionWriter)
      (rest : FileSessionWriter → Ending) (es : List Entry) (rs : List (Record × Record))
      → IsStorable srec
      → Stored filesize (files w) es
      → ((w' : FileSessionWriter)
          → Ready filesize (some srec) es w'
          → Extends filesize s es rs (rest w'))
      → Extends filesize s es rs (begin_spoolfile create filesize ep_writable srec w rest)
  unfolding begin_spoolfile
  begin_spoolfile-Extends srec s w rest es rs storable h k =
      let filename = (from_filenum w.next_filenum w.minwidth).filename in
      let w' : FileSessionWriter = record w { next_filenum = w.next_filenum + 1 } in
      if-cases (Extends filesize s es rs) (w.next_filenum == ulong_max) _ _
        (λ t. failed filesize s es rs w (endpoint_error "file number overflow"))
        (λ t.
          opened-Extends s w' filename (create filename)
            (write_first create filesize ep_writable srec rest) es rs
            (write_first-Extends srec s w' filename (files w) rest es rs storable h k))

  write_to_new-Extends :
      (srec r : Record) (w : FileSessionWriter) (before : List Entry)
      → IsStorable r
      → Ready filesize (some srec) before w
      → Extends filesize (some srec) before ((srec, r) ∷ []) (write_to_new r w)
  unfolding write_to_new
  write_to_new-Extends srec r w before storable (es, h, now, same) =
      current-Extends filesize srec r w w.spoolfile
        (λ w'. (w', err (endpoint_error "failed to write record to new spoolfile"))) es before
        bounded storable h now same (failed filesize (some srec) before ((srec, r) ∷ []) w _)

  write_record-Extends :
      (srec r : Record) (w : FileSessionWriter) (es : List Entry)
      → IsStorable srec
      → IsStorable r
      → Stored filesize (files w) es
      → InForce (some srec) w.spoolfile es
      → Extends filesize
          (some srec)
          es
          ((srec, r) ∷ [])
          (write_record create filesize ep_writable srec r w)
  unfolding write_record
  write_record-Extends srec r w es first storable h now =
      current-Extends filesize srec r w w.spoolfile
        (λ w'. begin_spoolfile create filesize ep_writable srec w' (write_to_new r)) es es bounded
        storable h now refl
        (begin_spoolfile-Extends srec (some srec) w (write_to_new r) es ((srec, r) ∷ []) first h
          (λ w' ready. write_to_new-Extends srec r w' es storable ready))

  unchanged :
      (s : Option Record) (w : FileSessionWriter) (es : List Entry)
      → Stored filesize (files w) es
      → InForce s w.spoolfile es
      → Extends filesize s es [] (w, ok tt)
  unchanged s w es h now _ = (es, h, now, sym (append-nil (payload es)))

  sync-Extends :
      (s : Option Record) (o : Option SpoolfileWriter) (w : FileSessionWriter) (es : List Entry)
      → Stored filesize (files w) es
      → InForce s w.spoolfile es
      → Extends filesize s es [] (sync_spoolfile create filesize ep_writable o w)
  unfolding sync_spoolfile
  sync-Extends s none w es h now = failed filesize s es [] w undefined_behaviour
  sync-Extends s (some f) w es h now = unchanged s w es h now

  start-Extends :
      (s : Option Record) (r : Record) (w : FileSessionWriter) (es : List Entry)
      → IsStorable r
      → Stored filesize (files w) es
      → Extends filesize
          (some r)
          es
          []
          (begin_spoolfile create filesize ep_writable r w λ w'. (w', ok tt))
  start-Extends s r w es storable h =
      begin_spoolfile-Extends r (some r) w (λ w'. (w', ok tt)) es [] storable h
        (λ w' (es', stored, now, same) _. (es', stored, now, same ∙ sym (append-nil (payload es))))

  handle-Extends :
      (s : Option Record) (c : Call) (w : FileSessionWriter) (es : List Entry)
      → SessionIsStorable s
      → CallIsStorable c
      → Stored filesize (files w) es
      → InForce s w.spoolfile es
      → Extends filesize (session_of c s) es (added s c) (handle create filesize ep_writable s c w)
  unfolding handle added session_of write_in_session
  handle-Extends none (session_start r) w es k l h now = start-Extends none r w es l h
  handle-Extends none (session_end r) w es k l h now = failed filesize none es [] w _
  handle-Extends none (sync r) w es k l h now = sync-Extends none w.spoolfile w es h now
  handle-Extends none (signature r) w es k l h now = failed filesize none es [] w _
  handle-Extends none (event r) w es k l h now = failed filesize none es [] w _
  handle-Extends none (control r) w es k l h now = unchanged none w es h now
  handle-Extends (some srec) (session_start r) w es k l h now = start-Extends (some srec) r w es l h
  handle-Extends (some srec) (session_end r) w es k l h now =
      write_record-Extends srec r w es k l h now
  handle-Extends (some srec) (sync r) w es k l h now =
      sync-Extends (some srec) w.spoolfile w es h now
  handle-Extends (some srec) (signature r) w es k l h now =
      write_record-Extends srec r w es k l h now
  handle-Extends (some srec) (event r) w es k l h now = write_record-Extends srec r w es k l h now
  handle-Extends (some srec) (control r) w es k l h now = unchanged (some srec) w es h now

  step-Extends :
      (s s' : Option Record) (e : Ending) (next : FileSessionWriter → Ending) (es : List Entry)
      (rs rs' : List (Record × Record))
      → Extends filesize s es rs e
      → ((w : FileSessionWriter) (es' : List Entry)
          → Stored filesize (files w) es'
          → InForce s w.spoolfile es'
          → Extends filesize s' es' rs' (next w))
      → Extends filesize s' es (rs ++ rs') (and_then e next)
  unfolding and_then
  step-Extends s s' (w, err x) next es rs rs' h k done = cc
  step-Extends s s' (w, ok _) next es rs rs' h k done =
      let (es', stored, now, same) = h refl in
      let (es'', stored', now', same') = k w es' stored now done in
      (es'', stored', now', same' ∙ ap (λ t. t ++ rs') same ∙ append_assoc (payload es) rs rs')

  run-Extends :
      (s : Option Record) (cs : List Call) (w : FileSessionWriter) (es : List Entry)
      → SessionIsStorable s
      → All CallIsStorable cs
      → Stored filesize (files w) es
      → InForce s w.spoolfile es
      → Extends filesize
          (session_after cs s)
          es
          (all_added s cs)
          (run create filesize ep_writable s cs w)
  unfolding run all_added
  run-Extends s [] w es k l h now = unchanged s w es h now
  run-Extends s (c ∷ cs) w es k (l, ls) h now =
      step-Extends (session_of c s) (session_after cs (session_of c s))
        (handle create filesize ep_writable s c w)
        (run create filesize ep_writable (session_of c s) cs) es (added s c)
        (all_added (session_of c s) cs) (handle-Extends s c w es k l h now)
        (λ w' es' stored now'.
          run-Extends (session_of c s) cs w' es' (session_of-SessionIsStorable c s l k) ls stored
            now')

  -- The handlers are called with records that can be stored (each of fewer than 2 ^ 62 octets of valid
  -- attributes), and all return; the capacity of a spoolfile is below 2 ^ 63. The spoolfiles have got
  -- the records that the calls had for them, behind those that were there already and in the order of
  -- the calls, and each record is in a spoolfile that starts with the session record that was in force
  -- when it came. A spoolfile has the octets of its records, one after the other, and no more of them
  -- than the capacity unless it has the session record alone.
  pub run-Stored :
      (s : Option Record) (cs : List Call) (w : FileSessionWriter) (es : List Entry)
      → SessionIsStorable s
      → All CallIsStorable cs
      → Stored filesize (files w) es
      → InForce s w.spoolfile es
      → (run create filesize ep_writable s cs w).1 ≡ ok tt
      → (es' : List Entry) × Stored filesize (files (run create filesize ep_writable s cs w).0) es'
        × InForce (session_after cs s) (run create filesize ep_writable s cs w).0.spoolfile es'
        × (payload es' ≡ payload es ++ all_added s cs)
  run-Stored s cs w es k l h now = run-Extends s cs w es k l h now
