-- ===== src/NewWriter/Accepted.antt =====
-- What an operation of horace/new_session_writer.cc has done where it returns.
use libholmes_horace.Record.{Record}
use libholmes_horace.Common.{
  ℕ, ◌+◌, ◌≡◌, refl, sym, ap, Bool, true, false, List, ◌∷◌, if◌then◌else◌, Error,
  undefined_behaviour, terminate_exception, Result, err, ok,
}
use libholmes_horace.NewWriter.{
  Ending, before, attempt, accept, retried, write_retrying, NewSessionWriter, Answer, accepted,
  failed, terminated,
}

pub before-ok :
    (e : Ending) (k : NewSessionWriter → Ending) (w' : NewSessionWriter)
    → before e k ≡ (w', ok tt)
    → (w : NewSessionWriter) × (e ≡ (w, ok tt)) × (k w ≡ (w', ok tt))
unfolding before
before-ok (w, err e) k w' h = let bad : err e ≡ ok tt = ap (λ (x : Ending). x.1) h in cc
before-ok (w, ok tt) k w' h = (w, refl, h)

pub guard-ok :
    (b : Bool) (x : Ending) (w : NewSessionWriter) (e : Error) (w' : NewSessionWriter)
    → (if b then x else (w, err e)) ≡ (w', ok tt)
    → x ≡ (w', ok tt)
guard-ok true x w e w' h = h
guard-ok false x w e w' h = let bad : err e ≡ ok tt = ap (λ (x : Ending). x.1) h in cc

pub attempt-ok {ℓ} :
    {A : Type ℓ} (w : NewSessionWriter) (r : Result A) (k : A → Ending) (w' : NewSessionWriter)
    → attempt w r k ≡ (w', ok tt)
    → (a : A) × (r ≡ ok a) × (k a ≡ (w', ok tt))
unfolding attempt
attempt-ok w (err e) k w' h = let bad : err e ≡ ok tt = ap (λ (x : Ending). x.1) h in cc
attempt-ok w (ok a) k w' h = (a, refl, h)

-- A record that the endpoint has taken, and nothing else changed.
pub record Taken (r : Record) (w w' : NewSessionWriter) : Type 0 where
  pub written : w'.written ≡ r ∷ w.written
  pub seqnum : w'.seqnum ≡ w.seqnum
  pub session_hash : w'.session_hash ≡ w.session_hash
  pub hattr : w'.hattr ≡ w.hattr
  pub signer : w'.signer ≡ w.signer

module _ (answer : List Record → Record → Answer) (sign : List ℕ → List ℕ) where
  retried-Taken :
      (a : Answer) (r : Record) (w w' : NewSessionWriter)
      → retried answer sign a r w ≡ (w', ok tt)
      → Taken r w w'
  unfolding retried accept
  retried-Taken (accepted true) r w w' h =
      let e : accept answer sign r w ≡ w' = ap (λ (x : Ending). x.0) h in
      record {
        written = sym (ap (λ (x : NewSessionWriter). x.written) e);
        seqnum = sym (ap (λ (x : NewSessionWriter). x.seqnum) e);
        session_hash = sym (ap (λ (x : NewSessionWriter). x.session_hash) e);
        hattr = sym (ap (λ (x : NewSessionWriter). x.hattr) e);
        signer = sym (ap (λ (x : NewSessionWriter). x.signer) e);
      }
  retried-Taken (accepted false) r w w' h =
      let e : record (accept answer sign r w) { alarms = w.alarms + 1 } ≡ w' =
        ap (λ (x : Ending). x.0) h in
      record {
        written = sym (ap (λ (x : NewSessionWriter). x.written) e);
        seqnum = sym (ap (λ (x : NewSessionWriter). x.seqnum) e);
        session_hash = sym (ap (λ (x : NewSessionWriter). x.session_hash) e);
        hattr = sym (ap (λ (x : NewSessionWriter). x.hattr) e);
        signer = sym (ap (λ (x : NewSessionWriter). x.signer) e);
      }
  retried-Taken failed r w w' h =
      let bad : err undefined_behaviour ≡ ok tt = ap (λ (x : Ending). x.1) h in cc
  retried-Taken terminated r w w' h =
      let bad : err terminate_exception ≡ ok tt = ap (λ (x : Ending). x.1) h in cc

  pub write_retrying-Taken :
      (r : Record) (w w' : NewSessionWriter)
      → write_retrying answer sign r w ≡ (w', ok tt)
      → Taken r w w'
  unfolding write_retrying
  write_retrying-Taken r w w' h =
      retried-Taken (answer w.written r) r w w' (guard-ok w.connected _ w undefined_behaviour w' h)
