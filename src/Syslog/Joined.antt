-- ===== src/Syslog/Joined.antt =====
-- The fields of a Syslog message, put together, and how far a reader of
-- endpoints/syslog+udp/syslog_parser.cc has come with them.
use libholmes_horace.Common.{
  ℕ, ◌-◌, ◌≤◌, ◌≡◌, refl, sym, ap, ◌∙◌, ◌≢◌, List, [], ◌∷◌, ◌++◌, append_assoc, arith, length, take,
}
use libholmes_horace.Common.Text.{char_at}
use libholmes_horace.Common.Decimal.{decimal}
use libholmes_horace.Syslog.{space}
use libholmes_horace.Syslog.Message.{
  Call, priority, version, timestamp, hostname, appname, procid, msgid, structured_data, message,
}
use libholmes_horace.Syslog.Readers.{Ended, spaced, closed}

-- The characters of a field.
unfoldable pub field : Call → List ℕ
field (priority n) = decimal n
field (version n) = decimal n
field (timestamp s) = s
field (hostname s) = s
field (appname s) = s
field (procid s) = s
field (msgid s) = s
field (structured_data s) = s
field (message s) = s

-- Fields with a space between any two.
unfoldable pub join : List Call → List ℕ
join [] = []
join (c ∷ []) = field c
join (c ∷ d ∷ cs) = field c ++ (space ∷ join (d ∷ cs))

-- The priority stands in angle brackets, with no space after it.
unfoldable pub joined : List Call → List ℕ
unfolding field join
joined (priority p ∷ cs) = 0x3c ∷ (decimal p ++ (0x3e ∷ join cs))
joined cs = join cs

-- What stands between the fields and the next one.
unfoldable pub separator : List Call → List ℕ
separator [] = []
separator (c ∷ cs) = space ∷ []

join-append :
    (fs : List Call) (c : Call) → join (fs ++ (c ∷ [])) ≡ (join fs ++ separator fs) ++ field c
unfolding join separator
join-append [] c = refl
join-append (x ∷ []) c = sym (append_assoc (field x) (space ∷ []) (field c))
join-append (x ∷ y ∷ fs) c = rw (join-append (y ∷ fs) c) (
    sym (
      append_assoc (field x ++ (space ∷ join (y ∷ fs))) (space ∷ []) (field c)
      ∙ append_assoc (field x) (space ∷ join (y ∷ fs)) (space ∷ field c)
      ∙ ap (λ t. field x ++ (space ∷ t))
          (sym (append_assoc (join (y ∷ fs)) (space ∷ []) (field c)))))

pub joined-append :
    (p : ℕ) (fs : List Call) (c : Call)
    → joined (priority p ∷ (fs ++ (c ∷ []))) ≡ (joined (priority p ∷ fs) ++ separator fs) ++ field c
unfolding joined
joined-append p fs c = rw (join-append fs c) (
    ap (λ t. 0x3c ∷ t)
      (sym (
        ap (λ t. t ++ field c) (append_assoc (decimal p) (0x3e ∷ join fs) (separator fs))
        ∙ append_assoc (decimal p) ((0x3e ∷ join fs) ++ separator fs) (field c))))

-- Whether the last character that was taken is a space.
unfoldable pub Gap : List Call → ℕ → Type 0
Gap [] c = c ≢ space
Gap (x ∷ xs) c = c ≡ space

module _ (text : List ℕ) where
  -- The fields are those of the text up to the index: more may follow, or the text has ended.
  pub data Status (p i : ℕ) (fs : List Call) : Type 0 where
    ready :
        1 ≤ i
        → i ≤ length text
        → Gap fs (char_at text (i - 1))
        → take i text ≡ joined (priority p ∷ fs) ++ separator fs
        → Status p i fs
    closed_at :
        1 ≤ i
        → i ≡ length text
        → char_at text (i - 1) ≢ space
        → take i text ≡ joined (priority p ∷ fs)
        → Status p i fs

  append-Gap : (fs : List Call) (c : Call) (d : ℕ) → d ≡ space → Gap (fs ++ (c ∷ [])) d
  unfolding Gap
  append-Gap [] c d h = h
  append-Gap (x ∷ fs) c d h = h

  append-separator : (fs : List Call) (c : Call) → separator (fs ++ (c ∷ [])) ≡ space ∷ []
  unfolding separator
  append-separator [] c = refl
  append-separator (x ∷ fs) c = refl

  pub append-Status :
      (p i j : ℕ) (fs : List Call) (c : Call)
      → Status p i fs
      → Ended text i (field c) j
      → Status p j (fs ++ (c ∷ []))
  append-Status p i j fs c (ready pos le gap w) (spaced more jle sp e) =
      ready (omega (arith, more)) jle (append-Gap fs c (char_at text (j - 1)) sp) (
        rw (joined-append p fs c, append-separator fs c, sym w, sym e)
          (sym (append_assoc (take i text) (field c) (space ∷ []))))
  append-Status p i j fs c (ready pos le gap w) (closed more jeq other e) =
      closed_at (omega (arith, more)) jeq other (rw (joined-append p fs c, sym w, sym e) refl)
  append-Status p i j fs c (closed_at pos ieq gap w) (spaced more jle sp e) =
      absurd (omega (arith, more, jle, ieq))
  append-Status p i j fs c (closed_at pos ieq gap w) (closed more jeq other e) =
      absurd (omega (arith, more, jeq, ieq))
