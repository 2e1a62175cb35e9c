-- ===== src/NewWriter/Chain.antt =====
-- The records that a captured session leaves at the endpoint, in horace/new_session_writer.cc and
-- horace/event_signer.cc, while the signer works beside the capture.
use libholmes_horace.Attribute.{unsigned_integer, AttributeList}
use libholmes_horace.Attribute.Ids
use libholmes_horace.Attribute.Order.{insert}
use libholmes_horace.Record
use libholmes_horace.Record.{Record}
use mathlib.Core.Path.{subst}
use libholmes_horace.Common.{
  ℕ, ◌+◌, ◌%◌, ◌^◌, ◌≡◌, refl, sym, ap, ◌∙◌, ◌≢◌, Option, none, some, List, [], ◌∷◌, ◌++◌, ok,
}
use libholmes_horace.NewWriter.Accepted.{before-ok, attempt-ok, write_retrying-Taken, Taken}
use libholmes_horace.NewWriter.{
  Ending, insert_hash, offer, numbered, make_signature, write_signature, hash_event, next_number,
  write_event, EventSigner, NewSessionWriter, Answer,
}

-- `sig_seqnum = _seqnum; sig_hash.swap(_hash)` of `_run`.
unfoldable pub take_hash : EventSigner → EventSigner
take_hash s = record { seqnum = s.seqnum; hash = []; pending = some (s.seqnum, s.hash) }

unfoldable pub forget : EventSigner → EventSigner
forget s = record s { pending = none }

module _ (answer : List Record → Record → Answer) (sign : List ℕ → List ℕ)
    (hash : List ℕ → List ℕ) where
  -- What the capture and the thread of the signer do, in any order. The last argument has the events
  -- that have been captured, the last one first, and the one before it those before the step.
  pub data Step (w : NewSessionWriter) (w' : NewSessionWriter) (cs : List Record)
      : List Record → Type 0 where
    capture :
        (r : Record) → write_event answer sign (some hash) r w ≡ (w', ok tt) → Step w w' cs (r ∷ cs)
    collect :
        (s : EventSigner)
        → w.signer ≡ some s
        → s.pending ≡ none
        → s.hash ≢ []
        → w' ≡ record w { signer = some (take_hash s) }
        → Step w w' cs cs
    put_signature :
        (s : EventSigner) (n : ℕ) (h : List ℕ)
        → w.signer ≡ some s
        → s.pending ≡ some (n, h)
        → write_signature answer sign
            (make_signature answer sign (some n) h)
            (record w { signer = some (forget s) })
          ≡ (w', ok tt)
        → Step w w' cs cs

  pub data Steps (w : NewSessionWriter) : NewSessionWriter → List Record → Type 0 where
    here : Steps w w []
    next :
        {v u : NewSessionWriter} {cs ds : List Record}
        → Steps w v cs
        → Step v u cs ds
        → Steps w u ds

  -- An event among the records, with its number and the hash of it, which covers the hash `sh` of the
  -- session record.
  pub data Recorded (sh : List ℕ) (n : ℕ) (h : List ℕ) : List Record → Type 0 where
    this :
        (attrs : AttributeList) (channel : ℕ) (previous : Option (List ℕ)) (octets : List ℕ)
        (l : List Record)
        → (r : Record)
        → r ≡ record {
          channel = channel;
          attributes = insert_hash previous (insert (unsigned_integer Ids.attrid_seqnum n) attrs);
        }
        → Record.write r ≡ ok octets
        → h ≡ hash (sh ++ octets)
        → Recorded sh n h (r ∷ l)
    earlier : (r : Record) {l : List Record} → Recorded sh n h l → Recorded sh n h (r ∷ l)

  -- The events that have been captured, and the records of a session, the last one first: `n` is the
  -- number of the next event, and `h` the hash of the last one. Each captured event is there, in their
  -- order and with nothing added to it but its number, which is the count of those before it, and the
  -- hash of the one before it; each signature signs the hash of an event before it, under its number.
  pub data Trail (sh : List ℕ) (start : List Record)
      : ℕ → Option (List ℕ) → List Record → List Record → Type 0 where
    begun : Trail sh start 0 none [] start
    event :
        (n : ℕ) (previous : Option (List ℕ)) (cs l : List Record) (c r : Record) (octets : List ℕ)
        (m : ℕ)
        → Trail sh start n previous cs l
        → r ≡ record {
          channel = c.channel;
          attributes =
              insert_hash previous (insert (unsigned_integer Ids.attrid_seqnum n) c.attributes);
        }
        → Record.write r ≡ ok octets
        → m ≡ (n + 1) % 2 ^ 64
        → Trail sh start m (some (hash (sh ++ octets))) (c ∷ cs) (r ∷ l)
    signature :
        (n : ℕ) (previous : Option (List ℕ)) (cs l : List Record) (k : ℕ) (h : List ℕ)
        → Trail sh start n previous cs l
        → Recorded sh k h l
        → Trail sh start n previous cs (make_signature answer sign (some k) h ∷ l)

  -- What the signer holds.
  abbrev pub Offered : List ℕ → List Record → EventSigner → Type 0
  Offered sh l s =
      (s.hash ≢ [] → Recorded sh s.seqnum s.hash l)
      × ((k : ℕ) (h : List ℕ) → s.pending ≡ some (k, h) → Recorded sh k h l)

  pub record IsTracked (start cs : List Record) (w : NewSessionWriter) : Type 0 where
    pub trail : Trail w.session_hash start w.seqnum w.hattr cs w.written
    pub offered : (s : EventSigner) → w.signer ≡ some s → Offered w.session_hash w.written s

  -- Signing does not change what the signer holds to what was recorded.
  later-Offered :
      (sh : List ℕ) (l : List Record) (r : Record) (s : EventSigner)
      → Offered sh l s
      → Offered sh (r ∷ l) s
  later-Offered sh l r s h = (λ e. earlier r (h.0 e), λ k g e. earlier r (h.1 k g e))

  some-inj {ℓ} : {A : Type ℓ} {a b : A} → some a ≡ some b → a ≡ b
  some-inj h = cc

  offer-Offered :
      (sh : List ℕ) (l : List Record) (r : Record) (n : ℕ) (h : List ℕ) (old : Option EventSigner)
      → ((s : EventSigner) → old ≡ some s → Offered sh l s)
      → Recorded sh n h (r ∷ l)
      → (s : EventSigner) → offer n h old ≡ some s
      → Offered sh (r ∷ l) s
  unfolding offer
  offer-Offered sh l r n h none f now s e = cc
  offer-Offered sh l r n h (some t) f now s e =
      let same : record t { seqnum = n; hash = h } ≡ s = some-inj e in
      subst (λ u. Offered sh (r ∷ l) u) same
        (λ some_hash. now, λ k g p. earlier r ((f t refl).1 k g p))

  -- The state after an event `nrec` that was taken, before and after its hash is known.
  captured :
      (start cs : List Record) (r : Record) (w v : NewSessionWriter) (octets : List ℕ)
      → IsTracked start cs w
      → Taken (numbered w r) (record w { hattr = none }) v
      → Record.write (numbered w r) ≡ ok octets
      → IsTracked start (r ∷ cs) (record v {
        hattr = some (hash (v.session_hash ++ octets));
        signer = offer v.seqnum (hash (v.session_hash ++ octets)) v.signer;
        seqnum = (v.seqnum + 1) % 2 ^ 64;
      })
  unfolding numbered
  captured start cs r w v octets tr t e = record {
    trail =
        rw (t.written, t.seqnum, t.session_hash)
          (event w.seqnum w.hattr cs w.written r (numbered w r) octets ((w.seqnum + 1) % 2 ^ 64)
            tr.trail refl e refl);
    offered =
        rw (t.written, t.seqnum, t.session_hash, t.signer)
          (offer-Offered w.session_hash w.written (numbered w r) w.seqnum
            (hash (w.session_hash ++ octets)) w.signer tr.offered
            (this r.attributes r.channel w.hattr octets w.written (numbered w r) refl e refl));
  }

  capture-IsTracked :
      (start cs : List Record) (r : Record) (w w' : NewSessionWriter)
      → IsTracked start cs w
      → write_event answer sign (some hash) r w ≡ (w', ok tt)
      → IsTracked start (r ∷ cs) w'
  unfolding write_event hash_event next_number
  capture-IsTracked start cs r w w' tr h =
      let a = before-ok _ _ w' h in
      let b = before-ok _ _ a.0 a.1 in
      let t = write_retrying-Taken answer sign (numbered w r) (record w { hattr = none }) b.0 b.1 in
      let c = attempt-ok b.0 (Record.write (numbered w r)) _ a.0 b.2 in
      subst (IsTracked start (r ∷ cs)) (ap (λ (x : Ending). x.0) a.2) (
        subst (λ u. IsTracked start (r ∷ cs) (record u { seqnum = (u.seqnum + 1) % 2 ^ 64 }))
          (ap (λ (x : Ending). x.0) c.2) (captured start cs r w b.0 c.0 tr t c.1))

  -- The signer takes the hash that it was offered.
  collect-IsTracked :
      (start cs : List Record) (w : NewSessionWriter) (s : EventSigner)
      → IsTracked start cs w
      → w.signer ≡ some s
      → s.hash ≢ []
      → IsTracked start cs (record w { signer = some (take_hash s) })
  unfolding take_hash
  collect-IsTracked start cs w s tr e some_hash =
      let held = tr.offered s e in
      record {
        trail = tr.trail;
        offered = λ u f.
            subst (λ u. Offered w.session_hash w.written u) (some-inj f)
              (
                λ none_left. absurd (none_left refl),
                λ k h p.
                    let q : (s.seqnum, s.hash) ≡ (k, h) = some-inj p in
                    subst (λ (x : ℕ × List ℕ). Recorded w.session_hash x.0 x.1 w.written) q
                      (held.0 some_hash),
              );
      }

  signed :
      (start cs : List Record) (w v : NewSessionWriter) (s : EventSigner) (n : ℕ) (h : List ℕ)
      → IsTracked start cs w
      → w.signer ≡ some s
      → s.pending ≡ some (n, h)
      → Taken (make_signature answer sign (some n) h) (record w { signer = some (forget s) }) v
      → IsTracked start cs v
  unfolding forget
  signed start cs w v s n h tr e p t =
      let held = tr.offered s e in
      record {
        trail =
            rw (t.written, t.seqnum, t.session_hash, t.hattr)
              (signature w.seqnum w.hattr cs w.written n h tr.trail (held.1 n h p));
        offered = λ u f.
            let g : some (record s { pending = none }) ≡ some u = sym t.signer ∙ f in
            rw (t.written, t.session_hash)
              (subst
                (λ u. Offered w.session_hash (make_signature answer sign (some n) h ∷ w.written) u)
                (some-inj g)
                (
                  λ some_hash. earlier (make_signature answer sign (some n) h) (held.0 some_hash),
                  λ k g q. let bad : ◌≡◌ {A = Option (ℕ × List ℕ)} none (some (k, g)) = q in cc,
                ));
      }

  Step-IsTracked :
      (start cs ds : List Record) (w w' : NewSessionWriter)
      → IsTracked start cs w
      → Step w w' cs ds
      → IsTracked start ds w'
  Step-IsTracked start cs _ w w' tr (capture r h) = capture-IsTracked start cs r w w' tr h
  Step-IsTracked start cs _ w w' tr (collect s e p some_hash q) =
      subst (IsTracked start cs) (sym q) (collect-IsTracked start cs w s tr e some_hash)
  Step-IsTracked start cs _ w w' tr (put_signature s n h e p q) =
      signed start cs w w' s n h tr e p (
        unfold write_signature in
        write_retrying-Taken answer sign (make_signature answer sign (some n) h)
          (record w { signer = some (forget s) }) w' q)

  -- A session writer before its first session: no event yet, and nothing offered to the signer.
  pub record IsNew (w : NewSessionWriter) : Type 0 where
    pub no_event : w.seqnum ≡ 0
    pub no_hash : w.hattr ≡ none
    pub idle : (s : EventSigner) → w.signer ≡ some s → (s.hash ≡ []) × (s.pending ≡ none)

  pub new-IsTracked : (w : NewSessionWriter) → IsNew w → IsTracked w.written [] w
  new-IsTracked w h = record {
    trail = rw (h.no_event, h.no_hash) begun;
    offered = λ s e. (
      λ some_hash. absurd (some_hash (h.idle s e).0),
      λ k g p.
          let bad : ◌≡◌ {A = Option (ℕ × List ℕ)} none (some (k, g)) = sym (h.idle s e).1 ∙ p in cc,
    );
  }

  pub Steps-IsTracked :
      (start : List Record) (w : NewSessionWriter) (cs : List Record) (w' : NewSessionWriter)
      → IsTracked start [] w
      → Steps w w' cs
      → IsTracked start cs w'
  Steps-IsTracked start w _ _ held here = held
  Steps-IsTracked start w _ _ held (next {v} {u} {cs} {ds} steps step) =
      Step-IsTracked start cs ds v u (Steps-IsTracked start w cs v held steps) step
