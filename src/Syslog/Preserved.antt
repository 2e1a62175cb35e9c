-- ===== src/Syslog/Preserved.antt =====
-- The message can be put together again from what `read_message` of
-- endpoints/syslog+udp/syslog_parser.cc passes to the builder.
use libholmes_horace.Common.{
  ℕ, ◌-◌, ◌≤◌, ◌<◌, ◌≡◌, refl, sym, ◌∙◌, ◌≢◌, inl, inr, true, false, not, ◌&&◌, List, [], ◌∷◌, ◌++◌,
  append-nil, arith, ◌==◌, if◌then◌else◌, Bool-cases, test→eq, test_refl, if-cases, length, take,
  length-nil, ◌>>=◌, Result, ok,
}
use libholmes_horace.Common.Text.{char_at, take-length, take-between}
use libholmes_horace.Common.Decimal.{decimal}
use libholmes_horace.Syslog.{space, Reading, slice, read_token}
use libholmes_horace.Syslog.Fields.{read_remaining}
use libholmes_horace.Syslog.Message.{
  Progress, give_up, try_read, optional_version, read_rfc3164, read_rfc5424, read_rest, read_parts,
  add_remaining, read_message, Call, priority, version, timestamp, hostname, appname, procid, msgid,
  structured_data, message,
}
use libholmes_horace.Syslog.Decimals.{Restored, got, refused}
use libholmes_horace.Syslog.Readers.{read_priority-Took, read_version-Took, read_token-Took, Ended}
use libholmes_horace.Syslog.Taken.{read_rfc3164_timestamp-Took, read_rfc5424_structured_data-Took}
use libholmes_horace.Syslog.Joined.{
  field, join, joined, separator, joined-append, Gap, append-Status, Status, ready, closed_at,
}

module _ (text : List ℕ) where
  -- What the `try` block has come to.
  data Good : Progress → Type 0 where
    untouched : Good (ok (0, []))
    kept : (p i : ℕ) (fs : List Call) → Status text p i fs → Good (ok (i, priority p ∷ fs))
    version_dropped :
        (p n i : ℕ)
        → 2 ≤ n
        → n < 1000
        → Status text p i (version n ∷ [])
        → Good (ok (i, priority p ∷ []))

  try_read-Good {ℓ κ} :
      {A : Type ℓ} {P : A → ℕ → Type κ} (restore i : ℕ) (calls : List Call) {r : Reading A}
      (k : A → ℕ → Progress)
      → Good (ok (restore, calls))
      → Restored i P r
      → ((a : A) (j : ℕ) → P a j → Good (k a j))
      → Good (try_read restore calls r k)
  unfolding try_read give_up
  try_read-Good restore i calls k g (got {a} {index} h) f = f a index h
  try_read-Good restore i calls k g (refused m) f = g

  Status-le : (p i : ℕ) (fs : List Call) → Status text p i fs → i ≤ length text
  Status-le p i fs (ready pos le gap w) = le
  Status-le p i fs (closed_at pos e gap w) = omega (arith, e)

  read_rfc3164-Good : (p i : ℕ) → Status text p i [] → Good (read_rfc3164 text i (priority p ∷ []))
  unfolding read_rfc3164 field
  read_rfc3164-Good p i h =
      try_read-Good i i (priority p ∷ []) _ (kept p i [] h) (read_rfc3164_timestamp-Took text i)
        λ ts i1 e1.
          let s1 = append-Status text p i i1 [] (timestamp ts) h e1 in
          try_read-Good i1 i1 (priority p ∷ timestamp ts ∷ []) _ (kept p i1 (timestamp ts ∷ []) s1)
            (read_token-Took text i1 (Status-le p i1 _ s1))
            λ host i2 e2.
              kept p i2 (timestamp ts ∷ hostname host ∷ [])
                (append-Status text p i1 i2 (timestamp ts ∷ []) (hostname host) s1 e2)

  -- A token is read after some fields; the calls are those before the header unless all of it is there.
  header_token :
      (p i restore : ℕ) (fs : List Call) (calls : List Call) (c : List ℕ → Call)
      (k : List ℕ → ℕ → Progress)
      → ((tok : List ℕ) → field (c tok) ≡ tok)
      → Good (ok (restore, calls))
      → Status text p i fs
      → ((tok : List ℕ) (j : ℕ) → Status text p j (fs ++ (c tok ∷ [])) → Good (k tok j))
      → Good (try_read restore calls (read_token text i) k)
  header_token p i restore fs calls c k e g h f =
      try_read-Good restore i calls k g (read_token-Took text i (Status-le p i fs h))
        λ tok j ended. f tok j (append-Status text p i j fs (c tok) h (rw (e tok) ended))

  read_rfc5424-Good :
      (p restore i : ℕ)
      → Status text p restore []
      → Status text p i (version 1 ∷ [])
      → Good (read_rfc5424 text 1 restore i (priority p ∷ []))
  unfolding read_rfc5424 field
  read_rfc5424-Good p restore i h0 h =
      let g = kept p restore [] h0 in
      let before : List Call = priority p ∷ [] in
      header_token p i restore (version 1 ∷ []) before timestamp _ (λ tok. refl) g h
        λ a i1 s1.
          header_token p i1 restore _ before hostname _ (λ tok. refl) g s1
            λ b i2 s2.
              header_token p i2 restore _ before appname _ (λ tok. refl) g s2
                λ c i3 s3.
                  header_token p i3 restore _ before procid _ (λ tok. refl) g s3
                    λ d i4 s4.
                      header_token p i4 restore _ before msgid _ (λ tok. refl) g s4
                        λ e i5 s5.
                          try_read-Good i5 i5 _ _ (kept p i5 _ s5)
                            (read_rfc5424_structured_data-Took text i5 (Status-le p i5 _ s5))
                            λ sd i6 e6.
                              kept p i6 _ (append-Status text p i5 i6 _ (structured_data sd) s5 e6)

  -- The version number, or none.
  data Version (p restore : ℕ) : Reading ℕ → Type 0 where
    absent : Version p restore (restore, ok 0)
    present :
        (v j : ℕ)
        → v ≢ 0
        → v < 1000
        → Status text p j (version v ∷ [])
        → Version p restore (j, ok v)

  optional_version-Version :
      (p restore : ℕ) {r : Reading ℕ}
      → Status text p restore []
      → Restored restore (λ v j. (v ≢ 0) × (v < 1000) × Ended text restore (decimal v) j) r
      → Version p restore (optional_version restore r)
  unfolding optional_version field
  optional_version-Version p restore h (got {a} {index} k) =
      present a index k.0 k.1 (append-Status text p restore index [] (version a) h k.2)
  optional_version-Version p restore h (refused m) = absent

  rest-Good :
      (p restore : ℕ) {r : Reading ℕ}
      → Status text p restore []
      → Version p restore r
      → Good (
          try_read restore (priority p ∷ []) r (λ number index.
            if number == 0
            then read_rfc3164 text index (priority p ∷ [])
            else if number == 1
            then read_rfc5424 text number restore index (priority p ∷ [])
            else ok (index, priority p ∷ [])))
  unfolding try_read
  rest-Good p restore h absent = read_rfc3164-Good p restore h
  rest-Good p restore h (present v j nonzero small s) =
      if-cases Good (v == 0) _ _ (λ t. absurd (nonzero (test→eq v 0 t)))
        (λ t.
          if-cases Good (v == 1) _ _
            (λ u.
              let one : v ≡ 1 = test→eq v 1 u in
              rw (one) (read_rfc5424-Good p restore j h (rw (one) at s)))
            (λ u. version_dropped p v j (ground (arith, t, u)) small s))

  read_parts-Good : Good (read_parts text 0)
  unfolding read_parts read_rest joined Gap separator
  read_parts-Good =
      try_read-Good 0 0 [] _ untouched (read_priority-Took text 0 (omega arith)) λ p i h.
        let s : Status text p i [] =
          ready h.1 h.2 h.3 (sym h.4 ∙ sym (append-nil (0x3c ∷ (decimal p ++ (0x3e ∷ []))))) in
        rest-Good p i s (optional_version-Version p i s (read_version-Took text i h.2))

  -- What is added for the rest of the text.
  extra : ℕ → List Call
  extra i =
      if not (i == 0) && char_at text (i - 1) == space
      then message (read_remaining text i).1 ∷ []
      else if not (i == length text)
      then message (read_remaining text i).1 ∷ []
      else []

  add_remaining-extra : (i : ℕ) (calls : List Call) → add_remaining text i calls ≡ calls ++ extra i
  unfolding add_remaining extra
  add_remaining-extra i calls = elim (Bool-cases (not (i == 0) && char_at text (i - 1) == space)) [
    | inl t ↦ rw (t) refl
    | inr t ↦ elim (Bool-cases (not (i == length text))) [
      | inl u ↦ rw (t, u) refl
      | inr u ↦ rw (t, u) (sym (append-nil calls))
    ]
  ]

  rest_joined :
      (p i : ℕ) (fs : List Call)
      → i ≤ length text
      → take i text ≡ joined (priority p ∷ fs) ++ separator fs
      → joined (priority p ∷ (fs ++ (message (read_remaining text i).1 ∷ []))) ≡ text
  unfolding read_remaining field
  rest_joined p i fs le w =
      rw (joined-append p fs (message (slice text i (length text))), sym w)
        (take-between text i (length text) le ∙ take-length text)

  space_test : (i c : ℕ) → 1 ≤ i → c ≡ space → (not (i == 0) && c == space) ≡ true
  space_test i c pos e = let more : (i == 0) ≡ false = ground (arith, pos) in rw (e, more) refl

  other_test : (i c : ℕ) → c ≢ space → (not (i == 0) && c == space) ≡ false
  other_test i c h = elim (Bool-cases (c == space)) [
    | inl t ↦ absurd (h (test→eq c space t))
    | inr t ↦ elim (Bool-cases (not (i == 0))) [ inl u ↦ rw (t, u) refl | inr u ↦ rw (t, u) refl ]
  ]

  extra-joined :
      (p i : ℕ) (fs : List Call) → Status text p i fs → joined (priority p ∷ (fs ++ extra i)) ≡ text
  unfolding extra separator Gap
  extra-joined p i [] (ready pos le gap w) =
      rw (other_test i (char_at text (i - 1)) gap) (elim (Bool-cases (i == length text)) [
        | inl t ↦
            let e : i ≡ length text = test→eq i (length text) t in
            let full : take i text ≡ text = rw (e) (take-length text) in
            rw (t) (sym (append-nil (joined (priority p ∷ []))) ∙ sym w ∙ full)
        | inr t ↦ rw (t) (rest_joined p i [] le w)
      ])
  extra-joined p i (x ∷ fs) (ready pos le gap w) =
      rw (space_test i (char_at text (i - 1)) pos gap) (rest_joined p i (x ∷ fs) le w)
  extra-joined p i fs (closed_at pos e other w) =
      let all : (i == length text) ≡ true = rw (e) (test_refl (length text)) in
      let full : take i text ≡ text = rw (e) (take-length text) in
      rw (other_test i (char_at text (i - 1)) other, all, append-nil fs) (sym w ∙ full)

  -- The builder gets what the message is made of: `joined` puts it together again. A version number
  -- of 2 or more is the exception: it is taken from the message and not passed on.
  pub data IsPassedOn : Result (List Call) → Type 0 where
    whole : (calls : List Call) → joined calls ≡ text → IsPassedOn (ok calls)
    without_version :
        (p n : ℕ) (rest : List Call)
        → 2 ≤ n
        → n < 1000
        → joined (priority p ∷ version n ∷ rest) ≡ text
        → IsPassedOn (ok (priority p ∷ rest))

  untouched_lem : IsPassedOn (ok (add_remaining text 0 []))
  unfolding add_remaining read_remaining joined join field
  untouched_lem = elim (Bool-cases (0 == length text)) [
    | inl t ↦ rw (t) (whole [] (sym (length-nil text (sym (test→eq 0 (length text) t)))))
    | inr t ↦
        let full : take (length text - 0) text ≡ text =
          let e : length text - 0 ≡ length text = omega arith in rw (e) (take-length text) in
        rw (t) (whole (message (take (length text - 0) text) ∷ []) full)
  ]

  Good-IsPassedOn :
      (r : Progress) → Good r → IsPassedOn (r >>= λ p. ok (add_remaining text p.0 p.1))
  Good-IsPassedOn _ untouched = untouched_lem
  Good-IsPassedOn _ (kept p i fs s) =
      rw (add_remaining-extra i (priority p ∷ fs))
        (whole (priority p ∷ (fs ++ extra i)) (extra-joined p i fs s))
  Good-IsPassedOn _ (version_dropped p n i big small s) =
      rw (add_remaining-extra i (priority p ∷ []))
        (without_version p n (extra i) big small (extra-joined p i (version n ∷ []) s))

  -- Every message is read without an exception and without a read past its end, and the fields that
  -- the builder gets, in their order, are the whole of it: with the priority in angle brackets and a
  -- space between any two others they make up the message again. The one exception is a message
  -- with a version number of 2 or more, of which this number is lost.
  pub read_message-IsPassedOn : IsPassedOn (read_message text)
  unfolding read_message
  read_message-IsPassedOn = Good-IsPassedOn (read_parts text 0) read_parts-Good
