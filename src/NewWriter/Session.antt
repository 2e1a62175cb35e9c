-- ===== src/NewWriter/Session.antt =====
-- A captured session from its session record on, in horace/new_session_writer.cc.
use libholmes_horace.Record
use libholmes_horace.Record.{Record}
use libholmes_horace.Common.{ℕ, ◌≡◌, ◌⊎◌, none, List, ◌∷◌}
use libholmes_horace.NewWriter.{make_signature, NewSessionWriter, Answer}

module _ (answer : List Record → Record → Answer) (sign : List ℕ → List ℕ)
    (hash : List ℕ → List ℕ) where
  -- The session record, and its signature where there is a signer, with the hash.
  abbrev pub Opening : List ℕ → Record → List Record → List Record → Type 0
  Opening h r rest l = (l ≡ r ∷ rest) ⊎ (l ≡ make_signature answer sign none h ∷ r ∷ rest)

  -- What the hash of a session record, and its signature, have left.
  record IsOpened (r : Record) (w w' : NewSessionWriter) (octets : List ℕ) : Type 0 where
    written : Opening (hash octets) r w.written w'.written
    seqnum : w'.seqnum ≡ w.seqnum
    session_hash : w'.session_hash ≡ hash octets
    hattr : w'.hattr ≡ w.hattr
    signer : w'.signer ≡ w.signer
