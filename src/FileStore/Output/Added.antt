-- ===== src/FileStore/Output/Added.antt =====
-- What calls of the handlers of horace+file add to the spoolfiles.
use libholmes_horace.Record.{Record}
use libholmes_horace.FileStore.Output.{
  write_spoolfile, Ending, close, write_current, session_of, SpoolfileWriter, FileSessionWriter,
}
use libholmes_horace.FileStore.Output.Contents.{
  Entry, Stored, InForce, payload, files, after_write-cases, appended,
}
use libholmes_horace.FileStore.Output.Lengths.{IsStorable}
use libholmes_horace.Common.{
  ℕ, ◌^◌, ◌<◌, ◌≡◌, ap, ◌∙◌, Option, none, some, List, [], ◌∷◌, ◌++◌, Error, err, ok,
}
use libholmes_horace.Writer.{Call, session_start, session_end, sync, signature, event, control}

-- The records that a call adds, each with the session record that it goes with: session records are
-- counted with the files that they start.
unfoldable pub added : Option Record → Call → List (Record × Record)
added none c = []
added (some srec) (session_start r) = []
added (some srec) (session_end r) = (srec, r) ∷ []
added (some srec) (sync r) = []
added (some srec) (signature r) = (srec, r) ∷ []
added (some srec) (event r) = (srec, r) ∷ []
added (some srec) (control r) = []

unfoldable pub all_added : Option Record → List Call → List (Record × Record)
unfolding added
all_added s [] = []
all_added s (c ∷ cs) = added s c ++ all_added (session_of c s) cs

-- The records that a call may have to store.
abbrev pub CallIsStorable : Call → Type 0
CallIsStorable (session_start r) = IsStorable r
CallIsStorable (session_end r) = IsStorable r
CallIsStorable (sync r) = Unit {0}
CallIsStorable (signature r) = IsStorable r
CallIsStorable (event r) = IsStorable r
CallIsStorable (control r) = Unit {0}

abbrev pub SessionIsStorable : Option Record → Type 0
SessionIsStorable none = Unit {0}
SessionIsStorable (some r) = IsStorable r

pub session_of-SessionIsStorable :
    (c : Call) (s : Option Record)
    → CallIsStorable c
    → SessionIsStorable s
    → SessionIsStorable (session_of c s)
unfolding session_of
session_of-SessionIsStorable (session_start r) s h k = h
session_of-SessionIsStorable (session_end r) s h k = k
session_of-SessionIsStorable (sync r) s h k = k
session_of-SessionIsStorable (signature r) s h k = k
session_of-SessionIsStorable (event r) s h k = k
session_of-SessionIsStorable (control r) s h k = k

-- An operation that returns has added these records, and this is the session record then.
abbrev pub Extends : ℕ → Option Record → List Entry → List (Record × Record) → Ending → Type 0
Extends filesize s es rs e =
    e.1 ≡ ok tt
    → (es' : List Entry) × Stored filesize (files e.0) es'
      × InForce s e.0.spoolfile es'
      × (payload es' ≡ payload es ++ rs)

-- The state of the files goes with some records, which add nothing.
abbrev pub Ready : ℕ → Option Record → List Entry → FileSessionWriter → Type 0
Ready filesize s es w =
    (es' : List Entry) × Stored filesize (files w) es'
    × InForce s w.spoolfile es'
    × (payload es' ≡ payload es)

pub failed :
    (filesize : ℕ) (s : Option Record) (es : List Entry) (rs : List (Record × Record))
    (w : FileSessionWriter) (e : Error)
    → Extends filesize s es rs (w, err e)
failed filesize s es rs w e h = cc

-- The spoolfile in progress gets the record, or it is refused.
pub current-Extends :
    (filesize : ℕ) (srec r : Record) (w : FileSessionWriter) (o : Option SpoolfileWriter)
    (refused : FileSessionWriter → Ending) (es before : List Entry)
    → filesize < 2 ^ 63
    → IsStorable r
    → Stored filesize (close o w.closed) es
    → InForce (some srec) o es
    → payload es ≡ payload before
    → Extends filesize (some srec) before ((srec, r) ∷ []) (refused w)
    → Extends filesize
        (some srec)
        before
        ((srec, r) ∷ [])
        (write_current r w o (λ w'. (w', ok tt)) refused)
unfolding write_current close
current-Extends filesize srec r w none refused es before bounded storable h now same k = k
current-Extends filesize srec r w (some f) refused es before bounded storable h now same k =
    after_write-cases (Extends filesize (some srec) before ((srec, r) ∷ [])) w (write_spoolfile r f)
      (λ w'. (w', ok tt)) refused (λ e _. failed filesize (some srec) before ((srec, r) ∷ []) w e)
      (λ f' written _.
        let (es', stored, now', behind) =
          appended filesize srec r f f' w.closed es bounded storable written h now in
        (es', stored, now', behind ∙ ap (λ t. t ++ ((srec, r) ∷ [])) same))
      (λ f' _. k)

-- The session record after some calls.
abbrev pub session_after : List Call → Option Record → Option Record
session_after [] s = s
session_after (c ∷ cs) s = session_after cs (session_of c s)
